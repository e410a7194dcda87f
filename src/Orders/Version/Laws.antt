-- ===== src/Orders/Version/Laws.antt =====
-- What ParseVersion accepts.
use temporal_serverless_rain.Base.{
  ◌≡◌, subst, refl, sym, ◌∙◌, ap, ◌≢◌, ◌⊎◌, inl, inr, Bool-cases, String, str_eq, eq_iff, true,
  false, List, [], ◌∷◌, none, some, All,
}
use temporal_serverless_rain.Orders.Version.{Version, all_versions, find_version, parse_version}

-- `v` is one of these.
pub data IsAmong (v : Version) : List Version → Type 0 where
  here : (vs : List Version) → IsAmong v (v ∷ vs)
  there : (x : Version) (vs : List Version) → IsAmong v vs → IsAmong v (x ∷ vs)

differs : (s v : String) → str_eq s v ≡ false → v ≢ s
differs s v e = λ q. let clash : true ≡ false = sym ((eq_iff s v).1 (sym q)) ∙ e in cc

find_version_lem :
    (s : String) (vs : List Version)
    → ((find_version s vs ≡ some s) × IsAmong s vs)
      ⊎ ((find_version s vs ≡ none) × All (λ v. v ≢ s) vs)
unfolding find_version
find_version_lem s [] = inr (refl, tt)
find_version_lem s (v ∷ vs) = elim (Bool-cases (str_eq s v)) [
  | inl e ↦
      let q : s ≡ v = (eq_iff s v).0 e in
      rw (e, find_version)
        (inl (ap (λ x. some x) (sym q), subst (λ x. IsAmong s (x ∷ vs)) q (IsAmong.here vs)))
  | inr e ↦
      rw (e, find_version)
        (elim (find_version_lem s vs) [
          | inl y ↦ inl (y.0, IsAmong.there v vs y.1)
          | inr n ↦ inr (n.0, (differs s v e, n.1))
        ])
]

-- ParseVersion accepts exactly the known versions, each as itself: a string is parsed to itself and
-- is one of them, or it is refused and is none of them.
pub parse_version_lem :
    (s : String)
    → ((parse_version s ≡ some s) × IsAmong s all_versions)
      ⊎ ((parse_version s ≡ none) × All (λ v. v ≢ s) all_versions)
unfolding parse_version
parse_version_lem s = find_version_lem s all_versions
