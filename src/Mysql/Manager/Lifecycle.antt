-- ===== src/Mysql/Manager/Lifecycle.antt =====
-- Opening and closing the connection (server/mysql/db.go).
use fabric_byzantine.Base.{
  ◌≡◌, refl, sym, ap, ◌∙◌, String, Bool, true, false, arith, Bool-cases, inl, inr, if◌then◌else◌,
}
use fabric_byzantine.Int.{ℤ}
use fabric_byzantine.Flow.{go, bind-go, ◌>>=◌, ok}
use fabric_byzantine.Helpers.{DbInfo}
use fabric_byzantine.Mysql.Manager.{
  Driver, DbMgr, block_sql, tx_sql, data_source, new_db_mgr, close_db,
}

module _ (driver : Driver) where
  -- What the package promises while the server answers: whether a handle is in use, that a new
  -- handle is none of those in use, that `same` tells handles apart, and that each call succeeds.
  pub record IsDriver : Type 0 where
    pub live : driver.Handle → driver.State → Bool
    pub same : driver.Handle → driver.Handle → Bool
    pub same_refl : (h : driver.Handle) → same h h ≡ true
    pub same_eq : (h q : driver.Handle) → same h q ≡ true → h ≡ q
    pub connected :
        (n d : String) (s : driver.State)
        → (h : driver.Handle) × (s' : driver.State) × (driver.connect n d s ≡ (ok h, s'))
          × (live h s ≡ false)
          × ((q : driver.Handle) → live q s' ≡ (if same h q then true else live q s))
    pub max_open :
        (h q : driver.Handle) (n : ℤ) (s : driver.State)
        → live q (driver.set_max_open_conns h n s) ≡ live q s
    pub max_idle :
        (h q : driver.Handle) (n : ℤ) (s : driver.State)
        → live q (driver.set_max_idle_conns h n s) ≡ live q s
    pub reached :
        (h : driver.Handle) (s : driver.State)
        → live h s ≡ true
        → (s' : driver.State) × (driver.ping h s ≡ (ok tt, s'))
          × ((q : driver.Handle) → live q s' ≡ live q s)
    pub prepared :
        (h : driver.Handle) (t : String) (s : driver.State)
        → live h s ≡ true
        → (st : driver.Handle) × (s' : driver.State) × (driver.prepare h t s ≡ (ok st, s'))
          × (live st s ≡ false)
          × ((q : driver.Handle) → live q s' ≡ (if same st q then true else live q s))
    pub closed :
        (h : driver.Handle) (s : driver.State)
        → live h s ≡ true
        → (s' : driver.State) × (driver.close h s ≡ (ok tt, s'))
          × ((q : driver.Handle) → live q s' ≡ (if same h q then false else live q s))

  other_handle :
      (d : IsDriver) (h q : driver.Handle) (s : driver.State)
      → d.live h s ≡ true
      → d.live q s ≡ false
      → d.same h q ≡ false
  other_handle d h q s used free = elim (Bool-cases (d.same h q)) [
    | inl e ↦
        let equal : d.live h s ≡ d.live q s = ap (λ r. d.live r s) (d.same_eq h q e) in
        ground (arith, used, free, equal)
    | inr e ↦ e
  ]

  same_handle :
      (d : IsDriver) (h q : driver.Handle) (s : driver.State)
      → d.live h s ≡ false
      → (if d.same h q then d.live q s else false) ≡ false
  same_handle d h q s free = elim (Bool-cases (d.same h q)) [
    | inl e ↦ rw e (ap (λ r. d.live r s) (sym (d.same_eq h q e)) ∙ free)
    | inr e ↦ rw e refl
  ]

  -- The manager has three handles of its own, in use after it is made.
  record IsOpen (d : IsDriver) (s s' : driver.State) (m : DbMgr driver) : Type 0 where
    fresh : (d.live m.db s ≡ false) × (d.live m.stmt_block s ≡ false) × (d.live m.stmt_tx s ≡ false)
    used :
        (q : driver.Handle)
        → d.live q s' ≡ (
            if d.same m.stmt_tx q
            then true
            else if d.same m.stmt_block q
            then true
            else if d.same m.db q
            then true
            else d.live q s)
    apart :
        (d.same m.db m.stmt_tx ≡ false)
        × (d.same m.db m.stmt_block ≡ false)
        × (d.same m.stmt_block m.stmt_tx ≡ false)

  new_db_mgr-IsOpen :
      {R : Type 0} (c : DbInfo) (s : driver.State) (d : IsDriver)
      → (m : DbMgr driver) × (s' : driver.State) × (new_db_mgr driver {R = R} c s ≡ (go m, s'))
        × IsOpen d s s' m
  unfolding new_db_mgr
  new_db_mgr-IsOpen c s d =
      let (h, s₁, opened, fresh₁, use₁) = d.connected "mysql" (data_source c) s in
      let s₂ = driver.set_max_open_conns h c.max_open_conns s₁ in
      let s₃ = driver.set_max_idle_conns h c.max_idle_conns s₂ in
      let l₃ : d.live h s₃ ≡ true = ground (
        arith,
        d.max_idle h h c.max_idle_conns s₂,
        d.max_open h h c.max_open_conns s₁,
        use₁ h,
        d.same_refl h,
      ) in
      let (s₄, reached, use₄) = d.reached h s₃ l₃ in
      let (b, s₅, first, fresh₅, use₅) = d.prepared h block_sql s₄ (use₄ h ∙ l₃) in
      let l₅ : d.live h s₅ ≡ true = ground (arith, use₅ h, use₄ h, l₃) in
      let (t, s₆, second, fresh₆, use₆) = d.prepared h tx_sql s₅ l₅ in
      (
        record { db = h; stmt_tx = t; stmt_block = b },
        s₆,
        rw (opened, reached, first, second) refl,
        record {
          fresh = (
            fresh₁,
            ground (
              arith,
              use₄ b,
              d.max_idle h b c.max_idle_conns s₂,
              d.max_open h b c.max_open_conns s₁,
              use₁ b,
              fresh₅,
            ),
            ground (
              arith,
              use₅ t,
              use₄ t,
              d.max_idle h t c.max_idle_conns s₂,
              d.max_open h t c.max_open_conns s₁,
              use₁ t,
              fresh₆,
            ),
          );
          used = λ q. ground (
            arith,
            use₆ q,
            use₅ q,
            use₄ q,
            d.max_idle h q c.max_idle_conns s₂,
            d.max_open h q c.max_open_conns s₁,
            use₁ q,
          );
          apart = (
            other_handle d h t s₅ l₅ fresh₆,
            other_handle d h b s₄ (use₄ h ∙ l₃) fresh₅,
            other_handle d b t s₅ (ground (arith, use₅ b, d.same_refl b)) fresh₆,
          );
        },
      )

  close_db_closed :
      {R : Type 0} (d : IsDriver) (s s' : driver.State) (m : DbMgr driver)
      → IsOpen d s s' m
      → (s'' : driver.State) × (close_db driver {R = R} m s' ≡ (go tt, s''))
        × ((q : driver.Handle) → d.live q s'' ≡ d.live q s)
  unfolding close_db
  close_db_closed d s s' m o =
      let (s₁, first, use₁) = d.closed m.db s' (ground (arith, o.used m.db, d.same_refl m.db)) in
      let (s₂, second, use₂) =
        d.closed m.stmt_tx s₁
          (ground (arith, use₁ m.stmt_tx, o.used m.stmt_tx, d.same_refl m.stmt_tx, o.apart)) in
      let (s₃, third, use₃) = d.closed m.stmt_block s₂ (
        ground (
          arith,
          use₂ m.stmt_block,
          use₁ m.stmt_block,
          o.used m.stmt_block,
          d.same_refl m.stmt_block,
          o.apart,
          d.same_eq m.stmt_tx m.stmt_block,
        )) in
      (
        s₃,
        rw (first, second, third) refl,
        λ q. ground (
          arith,
          use₃ q,
          use₂ q,
          use₁ q,
          o.used q,
          same_handle d m.db q s o.fresh.0,
          same_handle d m.stmt_block q s o.fresh.1,
          same_handle d m.stmt_tx q s o.fresh.2,
        ),
      )

  -- While the database answers, a manager that NewDBMgr makes is made and is closed by CloseDB
  -- without a panic, and after it every handle is in use or not as it was before: the pool and the
  -- two statements are given back, and no other handle is touched.
  pub close_db-new_db_mgr :
      (c : DbInfo) (s : driver.State) (d : IsDriver)
      → (s' : driver.State) × ((new_db_mgr driver {R = Unit {0}} c >>= λ m. close_db driver m) s
          ≡ (go tt, s'))
        × ((q : driver.Handle) → d.live q s' ≡ d.live q s)
  close_db-new_db_mgr c s d =
      let (m, s₁, made, is_open) = new_db_mgr-IsOpen {R = Unit {0}} c s d in
      let (s₂, closed, as_before) = close_db_closed {R = Unit {0}} d s s₁ m is_open in
      (
        s₂,
        bind-go (new_db_mgr driver {R = Unit {0}} c) (λ m. close_db driver m) m s s₁ made ∙ closed,
        as_before,
      )
