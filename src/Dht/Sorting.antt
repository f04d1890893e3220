-- ===== src/Dht/Sorting.antt =====
-- The sort of `closest`, and its first members.
use peer_stream.Prelude.{
  ℕ, zero, suc, ◌≤◌, ◌≡◌, ◌⊎◌, refl, ap, Bool-cases, inl, inr, List, [], ◌∷◌, length, take, All,
  ltb→lt, ltb→le, arith, Bytes,
}
use peer_stream.Dht.Contact.{Contact}
use peer_stream.Prelude.Sorting.{In, All-In, insert_by, sort_by, All-insert_by, All-take, All-map}
use peer_stream.Dht.Closest.{is_nearer, gap}

module _ (target : Bytes) where
  abbrev pub NoFarther : Contact → Contact → Type 0
  NoFarther d c = gap target c ≤ gap target d

  -- Each contact is no farther than those behind it.
  abbrev pub Ordered : List Contact → Type 0
  Ordered [] = Unit
  Ordered (c ∷ cs) = All (λ d. gap target c ≤ gap target d) cs × Ordered cs

  Ordered-insert_by :
      (c : Contact) (cs : List Contact) → Ordered cs → Ordered (insert_by (is_nearer target) c cs)
  Ordered-insert_by c [] o = (tt, tt)
  Ordered-insert_by c (d ∷ ds) (low, o) = elim (Bool-cases (is_nearer target d c)) [
    | inl nearer ↦
        let lt = ltb→lt (gap target d) (gap target c) nearer in
        let le : gap target d ≤ gap target c = omega arith in
        rw nearer (
          All-insert_by (is_nearer target) (λ e. gap target d ≤ gap target e) c ds le low,
          Ordered-insert_by c ds o,
        )
    | inr farther ↦
        let le = ltb→le (gap target d) (gap target c) farther in
        rw farther (
          (
            le,
            All-map (λ e. gap target d ≤ gap target e) (λ e. gap target c ≤ gap target e) ds
                (λ e h. omega arith) low,
          ),
          (low, o),
        )
  ]

  pub Ordered-sort_by : (cs : List Contact) → Ordered (sort_by (is_nearer target) cs)
  Ordered-sort_by [] = tt
  Ordered-sort_by (c ∷ cs) =
      Ordered-insert_by c (sort_by (is_nearer target) cs) (Ordered-sort_by cs)

  pub Ordered-take : (n : ℕ) (cs : List Contact) → Ordered cs → Ordered (take n cs)
  Ordered-take zero cs o = tt
  Ordered-take (suc n) [] o = tt
  Ordered-take (suc n) (c ∷ cs) (low, o) = (All-take _ n cs low, Ordered-take n cs o)

  -- A member is among the first, or the first are full and no farther than it.
  pub In-take :
      (d : Contact) (n : ℕ) (cs : List Contact)
      → Ordered cs
      → In d cs
      → In d (take n cs) ⊎ ((length (take n cs) ≡ n) × All (NoFarther d) (take n cs))
  In-take d zero cs o inside = inr (refl, tt)
  In-take d (suc n) [] o inside = absurd inside
  In-take d (suc n) (c ∷ cs) (low, o) (inl same) = inl (inl same)
  In-take d (suc n) (c ∷ cs) (low, o) (inr inside) = elim (In-take d n cs o inside) [
    | inl there ↦ inl (inr there)
    | inr (full, no_farther) ↦
        inr (ap suc full, (All-In (λ e. gap target c ≤ gap target e) d cs low inside, no_farther))
  ]
