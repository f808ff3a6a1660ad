-- ===== src/Server/Targets/Order.antt =====
-- The loop of InvokeCC over the map of peers (server/fabsdk.go), and the order in which Go walks it.
use mathlib.Core.List.{filter_map, Permᴰ}
use mathlib.Core.List.Permᴰ as Perms
use fabric_byzantine.Base.{
  ℕ, ◌^◌, ◌<◌, ◌≡◌, refl, sym, ap, subst, ◌∙◌, Bool, true, false, String, List, [], ◌∷◌, ◌++◌,
  append_one, append_none, Option, none, some, Option-cases, Bool-cases, inl, inr, arith, leb,
  length, if◌then◌else◌,
}
use fabric_byzantine.Int.{ℤ, pos, sub64}
use fabric_byzantine.Dict.{Dict}
use fabric_byzantine.Strconv.{bytes_of}
use fabric_byzantine.Server.PeerName.{peer_number}
use fabric_byzantine.Server.Targets.{
  Split, split, split_from, place, OrgInstance, at, first_peer, peers_at, all_first, choose_targets,
}
use fabric_byzantine.Server.Targets.Totality.{
  AllStaffed, IsNumber, AllNumbered, choose_targets_total,
}

-- The same list in another order.
abbrev pub Reordered {ℓ} : {A : Type ℓ} → List A → List A → Type ℓ
Reordered xs ys = Permᴰ xs ys

length-Reordered {ℓ} : {A : Type ℓ} (xs ys : List A) → Reordered xs ys → length xs ≡ length ys
length-Reordered xs ys (Permᴰ.nil) = refl
length-Reordered xs ys (Permᴰ.cons {l₁ = l₁} {l₂ = l₂} e p) =
    omega (arith, length-Reordered l₁ l₂ p)
length-Reordered xs ys (Permᴰ.swap e f) = refl
length-Reordered xs ys (Permᴰ.trans {l₂ = l₂} p q) =
    length-Reordered xs l₂ p ∙ length-Reordered l₂ ys q

AllNumbered-Reordered :
    (n : ℕ) (peers other : Dict Bool)
    → Reordered peers other
    → AllNumbered peers n
    → AllNumbered other n
AllNumbered-Reordered n peers other (Permᴰ.nil) h = h
AllNumbered-Reordered n peers other (Permᴰ.cons {a = a} {b = b} {l₁ = l₁} {l₂ = l₂} e p) h = (
  subst (λ x. IsNumber (peer_number (bytes_of x.0)) n) e h.0,
  AllNumbered-Reordered n l₁ l₂ p h.1,
)
AllNumbered-Reordered n peers other (Permᴰ.swap e f) h = (
  subst (λ x. IsNumber (peer_number (bytes_of x.0)) n) f h.1.0,
  (subst (λ x. IsNumber (peer_number (bytes_of x.0)) n) e h.0, h.1.1),
)
AllNumbered-Reordered n peers other (Permᴰ.trans {l₂ = l₂} p q) h =
    AllNumbered-Reordered n l₂ other q (AllNumbered-Reordered n peers l₂ p h)

-- The position of a peer, if it has the mark.
unfoldable pub position : Bool → String × Bool → Option ℤ
position mark (k, v) = elim (peer_number (bytes_of k)) [
  | none ↦ none
  | some n ↦
      if mark
      then (if v then some (sub64 n (pos 1)) else none)
      else if v
      then none
      else some (sub64 n (pos 1))
]

unsome : {A : Type 0} (a b : A) → ◌≡◌ {A = Option A} (some a) (some b) → a ≡ b
unsome a b e = ap (λ o. elim o [ none ↦ a | some x ↦ x ]) e

-- The lists of a split are the positions of the marked and of the unmarked peers.
pub split_from-filter_map :
    (peers : Dict Bool) (s t : Split)
    → split_from peers s ≡ some t
    → (t.normal ≡ s.normal ++ filter_map (position true) peers)
      × (t.byzantine ≡ s.byzantine ++ filter_map (position false) peers)
unfolding split_from filter_map position
split_from-filter_map [] s t e =
    let same = sym (unsome s t e) in
    (
      ap (λ r. r.normal) same ∙ sym (append_none s.normal),
      ap (λ r. r.byzantine) same ∙ sym (append_none s.byzantine),
    )
split_from-filter_map ((k, true) ∷ peers) s t e = elim (Option-cases (peer_number (bytes_of k))) [
  | inl unnumbered ↦ absurd (ground arith)
  | inr (n, known) ↦
      let i = sub64 n (pos 1) in
      let (normal, byzantine) =
        split_from-filter_map peers (place true i s) t (rw (known, split_from) at e) in
      rw (known, position)
        (normal ∙ append_one s.normal (filter_map (position true) peers) i, byzantine)
]
split_from-filter_map ((k, false) ∷ peers) s t e = elim (Option-cases (peer_number (bytes_of k))) [
  | inl unnumbered ↦ absurd (ground arith)
  | inr (n, known) ↦
      let i = sub64 n (pos 1) in
      let (normal, byzantine) =
        split_from-filter_map peers (place false i s) t (rw (known, split_from) at e) in
      rw (known, position)
        (normal, byzantine ∙ append_one s.byzantine (filter_map (position false) peers) i)
]

module _ {P : Type 0} where
  -- `f.Orgs[v].Peers[0]`
  target : List (OrgInstance P) → ℤ → Option P
  target orgs v = elim (at orgs v) [ none ↦ none | some o ↦ first_peer o ]

  peers_at-filter_map :
      (orgs : List (OrgInstance P)) (vs : List ℤ) (ps : List P)
      → peers_at orgs vs ≡ some ps
      → ps ≡ filter_map (target orgs) vs
  unfolding peers_at filter_map target
  peers_at-filter_map orgs [] ps e = sym (unsome [] ps e)
  peers_at-filter_map orgs (v ∷ vs) ps e = elim (Option-cases (at orgs v)) [
    | inl absent ↦ absurd (ground arith)
    | inr (o, found) ↦ elim (Option-cases (first_peer o)) [
      | inl absent ↦ absurd (ground arith)
      | inr (p, first) ↦ elim (Option-cases (peers_at orgs vs)) [
        | inl absent ↦ absurd (ground arith)
        | inr (rest, others) ↦
            rw (found, first, target)
              (sym (unsome (p ∷ rest) ps (rw (found, first, others, peers_at) at e))
                ∙ ap (λ l. p ∷ l) (peers_at-filter_map orgs vs rest others))
      ]
    ]
  ]

  -- Positions in another order give the same peers in another order.
  peers_at-Reordered :
      (orgs : List (OrgInstance P)) (vs us : List ℤ) (ps qs : List P)
      → Reordered vs us
      → peers_at orgs vs ≡ some ps
      → peers_at orgs us ≡ some qs
      → Reordered ps qs
  peers_at-Reordered orgs vs us ps qs p e f =
      rw (peers_at-filter_map orgs vs ps e, peers_at-filter_map orgs us qs f)
        (Perms.filter_map (target orgs) p)

  choose_targets-Reordered :
      (orgs : List (OrgInstance P)) (s t : Split) (ps qs : List P)
      → Reordered s.normal t.normal
      → Reordered s.byzantine t.byzantine
      → choose_targets orgs s ≡ some ps
      → choose_targets orgs t ≡ some qs
      → Reordered ps qs
  unfolding choose_targets
  choose_targets-Reordered orgs s t ps qs normal byzantine e f =
      let same = length-Reordered s.normal t.normal normal in
      let same' = length-Reordered s.byzantine t.byzantine byzantine in
      elim (Bool-cases (leb 7 (length s.normal))) [
        | inl many ↦
            peers_at-Reordered orgs s.normal t.normal ps qs normal (ground (arith, e))
              (ground (arith, f, same))
        | inr few ↦ elim (Bool-cases (leb 7 (length s.byzantine))) [
          | inl many ↦
              peers_at-Reordered orgs s.byzantine t.byzantine ps qs byzantine (ground (arith, e))
                (ground (arith, f, same, same'))
          | inr few' ↦
              let all : all_first orgs ≡ some ps = ground (arith, e) in
              let all' : all_first orgs ≡ some qs = ground (arith, f, same, same') in
              subst (λ l. Reordered ps l) (unsome ps qs (sym all ∙ all')) (Perms.refl ps)
        ]
      ]

  -- In a network whose organisations each have a peer, fewer than 2^63 of them, and for peers whose
  -- names carry the organisations' numbers: in whichever order the map of peers is walked, the split
  -- and the choice meet no panic, there are as many normal and as many byzantine peers, and the same
  -- peers are asked, in some order.
  pub choose_targets_order :
      (orgs : List (OrgInstance P)) (peers other : Dict Bool)
      → length orgs < 2 ^ 63
      → AllStaffed orgs
      → AllNumbered peers (length orgs)
      → Reordered peers other
      → (s t : Split) × (ps qs : List P) × ((split peers ≡ some s)
          × (split other ≡ some t)
          × (length s.normal ≡ length t.normal)
          × (length s.byzantine ≡ length t.byzantine)
          × (choose_targets orgs s ≡ some ps)
          × (choose_targets orgs t ≡ some qs)
          × Reordered ps qs)
  unfolding split
  choose_targets_order orgs peers other small staffed numbered reordered =
      let (s, parted, ps, chosen) = choose_targets_total orgs peers small staffed numbered in
      let (t, parted', qs, chosen') =
        choose_targets_total orgs other small staffed
          (AllNumbered-Reordered (length orgs) peers other reordered numbered) in
      let none_yet : Split = record { normal = []; byzantine = [] } in
      let (s_normal, s_byzantine) = split_from-filter_map peers none_yet s parted in
      let (t_normal, t_byzantine) = split_from-filter_map other none_yet t parted' in
      let normal : Reordered s.normal t.normal =
        rw (s_normal, t_normal) (Perms.filter_map (position true) reordered) in
      let byzantine : Reordered s.byzantine t.byzantine =
        rw (s_byzantine, t_byzantine) (Perms.filter_map (position false) reordered) in
      (
        s,
        t,
        ps,
        qs,
        (
          parted,
          parted',
          length-Reordered s.normal t.normal normal,
          length-Reordered s.byzantine t.byzantine byzantine,
          chosen,
          chosen',
          choose_targets-Reordered orgs s t ps qs normal byzantine chosen chosen',
        ),
      )
