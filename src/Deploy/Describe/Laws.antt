-- ===== src/Deploy/Describe/Laws.antt =====
-- What ResolveLabel answers.
use temporal_serverless_rain.Base.{
  ◌≡◌, ◌≢◌, refl, sym, ◌∙◌, ◌⊎◌, inl, inr, Bool-cases, String, str_eq, eq_iff, Bool, if◌then◌else◌,
  true, false, List, [], ◌∷◌, none, some, All, map,
}
use temporal_serverless_rain.Deploy.Describe.{
  Summary, RoutingConfig, Version, version_of, routing_of, less, insert, sort, describe, find_label,
  resolve_label,
}

-- Some element of a list has a property.
pub data Exists {A : Type 0} (P : A → Type 0) : List A → Type 0 where
  here : (x : A) (xs : List A) → P x → Exists P (x ∷ xs)
  there : (x : A) (xs : List A) → Exists P xs → Exists P (x ∷ xs)

module _ (P : Version → Type 0) where
  swapped : (v w : Version) (ws : List Version) → Exists P (v ∷ ws) → Exists P (v ∷ w ∷ ws)
  swapped v w ws (Exists.here _ _ p) = Exists.here v (w ∷ ws) p
  swapped v w ws (Exists.there _ _ e) = Exists.there v (w ∷ ws) (Exists.there w ws e)

  placed-Exists :
      (b : Bool) (v w : Version) (ws rest : List Version)
      → (Exists P rest → Exists P (v ∷ ws))
      → Exists P (if b then w ∷ rest else v ∷ w ∷ ws)
      → Exists P (v ∷ w ∷ ws)
  placed-Exists true v w ws rest f (Exists.here _ _ p) =
      Exists.there v (w ∷ ws) (Exists.here w ws p)
  placed-Exists true v w ws rest f (Exists.there _ _ e) = swapped v w ws (f e)
  placed-Exists false v w ws rest f e = e

  insert-Exists : (v : Version) (ws : List Version) → Exists P (insert v ws) → Exists P (v ∷ ws)
  unfolding insert
  insert-Exists v [] h = h
  insert-Exists v (w ∷ ws) h = placed-Exists (less w v) v w ws (insert v ws) (insert-Exists v ws) h

  placed-All :
      (b : Bool) (v w : Version) (ws rest : List Version)
      → (All P rest → All P (v ∷ ws))
      → All P (if b then w ∷ rest else v ∷ w ∷ ws)
      → All P (v ∷ w ∷ ws)
  placed-All true v w ws rest f a = let r = f a.1 in (r.0, (a.0, r.1))
  placed-All false v w ws rest f a = a

  insert-All : (v : Version) (ws : List Version) → All P (insert v ws) → All P (v ∷ ws)
  unfolding insert
  insert-All v [] h = h
  insert-All v (w ∷ ws) h = placed-All (less w v) v w ws (insert v ws) (insert-All v ws) h

  under :
      (v : Version) (ws vs : List Version)
      → (Exists P ws → Exists P vs)
      → Exists P (v ∷ ws)
      → Exists P (v ∷ vs)
  under v ws vs f (Exists.here _ _ p) = Exists.here v vs p
  under v ws vs f (Exists.there _ _ e) = Exists.there v vs (f e)

  sort-Exists : (vs : List Version) → Exists P (sort vs) → Exists P vs
  unfolding sort
  sort-Exists [] h = h
  sort-Exists (v ∷ vs) h = under v (sort vs) vs (sort-Exists vs) (insert-Exists v (sort vs) h)

  sort-All : (vs : List Version) → All P (sort vs) → All P vs
  unfolding sort
  sort-All [] h = h
  sort-All (v ∷ vs) h = let r = insert-All v (sort vs) h in (r.0, sort-All vs r.1)

module _ (P : Version → Type 0) (f : Summary → Version) where
  map-Exists : (ss : List Summary) → Exists P (map f ss) → Exists (λ s. P (f s)) ss
  map-Exists [] h = elim h [ ]
  map-Exists (s ∷ ss) (Exists.here _ _ p) = Exists.here s ss p
  map-Exists (s ∷ ss) (Exists.there _ _ e) = Exists.there s ss (map-Exists ss e)

  map-All : (ss : List Summary) → All P (map f ss) → All (λ s. P (f s)) ss
  map-All [] h = tt
  map-All (s ∷ ss) h = (h.0, map-All ss h.1)

find_label_lem :
    (l : String) (vs : List Version)
    → ((b : String) × (find_label l vs ≡ some b)
        × Exists (λ v. (v.build_id ≡ b) × (v.label ≡ l)) vs)
      ⊎ ((find_label l vs ≡ none) × All (λ v. v.label ≢ l) vs)
unfolding find_label
find_label_lem l [] = inr (refl, tt)
find_label_lem l (v ∷ vs) = elim (Bool-cases (str_eq v.label l)) [
  | inl e ↦
      rw (e, find_label) (inl (v.build_id, refl, Exists.here v vs (refl, (eq_iff v.label l).0 e)))
  | inr e ↦
      rw (e, find_label)
        (elim (find_label_lem l vs) [
          | inl (b, q, x) ↦ inl (b, q, Exists.there v vs x)
          | inr n ↦
              inr
                (n.0, (λ q. let clash : true ≡ false = sym ((eq_iff v.label l).1 q) ∙ e in cc, n.1))
        ])
]

-- ResolveLabel answers with the Build ID of a version that the server has registered and whose
-- label is the one asked for; or with none, and then no registered version has that label.
pub resolve_label_lem :
    (label : String → String) (c : RoutingConfig) (ss : List Summary) (l : String)
    → ((b : String) × (resolve_label label c ss l ≡ some b)
        × Exists (λ s. (s.build_id ≡ b) × (label s.build_id ≡ l)) ss)
      ⊎ ((resolve_label label c ss l ≡ none) × All (λ s. label s.build_id ≢ l) ss)
unfolding resolve_label describe version_of
resolve_label_lem label c ss l =
    let f = version_of label (routing_of label c) in
    elim (find_label_lem l (sort (map f ss))) [
      | inl (b, q, x) ↦ inl (b, q, map-Exists _ f ss (sort-Exists _ (map f ss) x))
      | inr n ↦ inr (n.0, map-All _ f ss (sort-All _ (map f ss) n.1))
    ]
