-- ===== src/Api/History/Versions.antt =====
-- internal/api/snapshot.go: the history with the series of each version, which starts again where a
-- version has been gone.
use temporal_serverless_rain.Base.{
  String, str_eq, eq_iff, ℕ, true, false, Bool-cases, ◌⊎◌, inl, inr, List, [], ◌∷◌, ◌++◌, map,
  append_assoc, append-nil, if◌then◌else◌, ◌≡◌, refl, sym, ap, ◌∙◌,
}
use temporal_serverless_rain.Deploy.Describe.{Version}
use temporal_serverless_rain.Api.History.{
  History, Sample, Series, append_capped, extend, extend_all, is_registered, keep_registered, push,
  push_versions, no_history,
}
use temporal_serverless_rain.Api.History.Laws.{
  latest, append_capped-latest, view, push_all, push_all_refines,
}

-- The series of a label, which is empty where there is none.
unfoldable pub series_of : String → Series → List ℕ
series_of l [] = []
series_of l ((k, xs) ∷ m) = let rest = series_of l m in if str_eq l k then xs else rest

-- The workers of the versions with a label.
unfoldable pub workers_of : String → List Version → List ℕ
workers_of l [] = []
workers_of l (v ∷ vs) =
    let rest = workers_of l vs in if str_eq l v.label then v.workers ∷ rest else rest

-- The whole series of a label after more samples: it goes on where a sample has the version, and is
-- forgotten where it does not.
pub going_on : List ℕ → List ℕ → List ℕ
going_on xs [] = []
going_on xs (w ∷ ws) = xs ++ w ∷ ws

pub whole : String → List ℕ → List (List Version) → List ℕ
whole l xs [] = xs
whole l xs (vs ∷ rest) = whole l (going_on xs (workers_of l vs)) rest

str_eq_sym : (a b : String) → str_eq a b ≡ str_eq b a
str_eq_sym a b = elim (Bool-cases (str_eq a b)) [
  | inl e ↦ e ∙ sym ((eq_iff b a).1 (sym ((eq_iff a b).0 e)))
  | inr e ↦ elim (Bool-cases (str_eq b a)) [
    | inl f ↦ let g : str_eq a b ≡ true = (eq_iff a b).1 (sym ((eq_iff b a).0 f)) in cc
    | inr f ↦ e ∙ sym f
  ]
]

extend_entry :
    (l k d : String) (n : ℕ) (xs : List ℕ) (m : Series)
    → (str_eq k d ≡ true) ⊎ (str_eq k d ≡ false)
    → (str_eq l k ≡ true) ⊎ (str_eq l k ≡ false)
    → series_of l (extend k n m)
      ≡ (if str_eq l k then append_capped (series_of l m) n else series_of l m)
    → series_of l (extend k n ((d, xs) ∷ m)) ≡ (
        if str_eq l k
        then append_capped (series_of l ((d, xs) ∷ m)) n
        else series_of l ((d, xs) ∷ m))
unfolding series_of extend
extend_entry l k d n xs m (inl e) f h =
    let same : str_eq l k ≡ str_eq l d = ap (str_eq l) ((eq_iff k d).0 e) in
    elim (Bool-cases (str_eq l d)) [
      | inl g ↦ rw (e, same, g) (refl)
      | inr g ↦ rw (e, same, g) (refl)
    ]
extend_entry l k d n xs m (inr e) (inl f) h =
    let other : str_eq l d ≡ false = ap (λ x. str_eq x d) ((eq_iff l k).0 f) ∙ e in
    rw (e, f, other) (h ∙ rw f (refl))
extend_entry l k d n xs m (inr e) (inr f) h =
    rw (e, f) (ap (λ x. if str_eq l d then xs else x) (h ∙ rw f (refl)))

series_of-extend :
    (l k : String) (n : ℕ) (m : Series)
    → series_of l (extend k n m)
      ≡ (if str_eq l k then append_capped (series_of l m) n else series_of l m)
unfolding series_of extend
series_of-extend l k n [] = refl
series_of-extend l k n ((d, xs) ∷ m) =
    extend_entry l k d n xs m (Bool-cases (str_eq k d)) (Bool-cases (str_eq l k))
      (series_of-extend l k n m)

-- The versions of a sample, one after the other.
extend_all-latest :
    (l : String) (vs : List Version) (m : Series) (xs : List ℕ)
    → series_of l m ≡ latest xs
    → series_of l (extend_all vs m) ≡ latest (xs ++ workers_of l vs)
unfolding extend_all workers_of
extend_all-latest l [] m xs h = h ∙ ap latest (sym (append-nil xs))
extend_all-latest l (v ∷ vs) m xs h =
    let s = series_of-extend l v.label v.workers m in
    elim (Bool-cases (str_eq l v.label)) [
      | inl e ↦
          let t : series_of l (extend v.label v.workers m) ≡ latest (xs ++ v.workers ∷ []) =
            (s ∙ rw e (ap (λ ys. append_capped ys v.workers) h))
            ∙ append_capped-latest xs v.workers in
          rw e (
            extend_all-latest l vs _ (xs ++ v.workers ∷ []) t
            ∙ ap latest (append_assoc xs (v.workers ∷ []) (workers_of l vs)))
      | inr e ↦ rw e (extend_all-latest l vs _ xs (s ∙ rw e h))
    ]

series_of-keep_registered :
    (l : String) (vs : List Version) (m : Series)
    → series_of l (keep_registered vs m) ≡ (if is_registered vs l then series_of l m else [])
unfolding series_of keep_registered
series_of-keep_registered l vs [] = elim (Bool-cases (is_registered vs l)) [
  | inl e ↦ rw e refl
  | inr e ↦ rw e refl
]
series_of-keep_registered l vs ((k, xs) ∷ m) =
    let h = series_of-keep_registered l vs m in
    elim (Bool-cases (str_eq l k)) [
      | inl f ↦
          let same : is_registered vs l ≡ is_registered vs k =
            ap (is_registered vs) ((eq_iff l k).0 f) in
          elim (Bool-cases (is_registered vs k)) [
            | inl e ↦ rw (e, f, same, e) (refl)
            | inr e ↦
                let gone : is_registered vs l ≡ false = same ∙ e in
                rw (e, f, gone) (h ∙ rw gone (refl))
          ]
      | inr f ↦ elim (Bool-cases (is_registered vs k)) [
        | inl e ↦ rw (e, f) (h)
        | inr e ↦ rw (e, f) (h)
      ]
    ]

-- A label is registered where a version has it.
registered_cases :
    (l : String) (vs : List Version)
    → ((is_registered vs l ≡ true) × ((w : ℕ) × ((ws : List ℕ) × (workers_of l vs ≡ w ∷ ws))))
      ⊎ ((is_registered vs l ≡ false) × (workers_of l vs ≡ []))
unfolding is_registered workers_of
registered_cases l [] = inr (refl, refl)
registered_cases l (v ∷ vs) = elim (Bool-cases (str_eq l v.label)) [
  | inl e ↦
      let f : str_eq v.label l ≡ true = str_eq_sym v.label l ∙ e in
      inl (rw f refl, (v.workers, (workers_of l vs, rw e refl)))
  | inr e ↦
      let f : str_eq v.label l ≡ false = str_eq_sym v.label l ∙ e in
      rw (e, f) (registered_cases l vs)
]

going_on-registered :
    (l : String) (vs : List Version) (xs : List ℕ)
    → (if is_registered vs l then latest (xs ++ workers_of l vs) else [])
      ≡ latest (going_on xs (workers_of l vs))
unfolding going_on latest
going_on-registered l vs xs = elim (registered_cases l vs) [
  | inl (e, (w, (ws, f))) ↦ rw (e, f) (refl)
  | inr (e, f) ↦ rw (e, f) (refl)
]

-- What a sample does to a label's series.
push_versions-latest :
    (l : String) (h : History) (vs : List Version) (xs : List ℕ)
    → series_of l h.workers_by_version ≡ latest xs
    → series_of l (push_versions h vs).workers_by_version ≡ latest (going_on xs (workers_of l vs))
unfolding push_versions
push_versions-latest l h vs xs e =
    series_of-keep_registered l vs (extend_all vs h.workers_by_version)
    ∙ ap (λ ys. if is_registered vs l then ys else [])
        (extend_all-latest l vs h.workers_by_version xs e)
    ∙ going_on-registered l vs xs

-- A sample and the versions that are registered then.
abbrev pub Sampled : Type 0
Sampled = Sample × List Version

unfoldable pub sample_all : History → List Sampled → History
sample_all h [] = h
sample_all h ((s, vs) ∷ rest) = sample_all (push_versions (push h s) vs) rest

abbrev pub without_versions : History → History
without_versions h = record h { workers_by_version = [] }

sample_all-push_all :
    (ps : List Sampled) (h : History)
    → without_versions (sample_all h ps) ≡ push_all (without_versions h) (map (λ p. p.0) ps)
unfolding sample_all push_all push push_versions
sample_all-push_all [] h = refl
sample_all-push_all ((s, vs) ∷ rest) h = sample_all-push_all rest (push_versions (push h s) vs)

sample_all-whole :
    (l : String) (ps : List Sampled) (h : History) (xs : List ℕ)
    → series_of l h.workers_by_version ≡ latest xs
    → series_of l (sample_all h ps).workers_by_version ≡ latest (whole l xs (map (λ p. p.1) ps))
unfolding sample_all whole push
sample_all-whole l [] h xs e = e
sample_all-whole l ((s, vs) ∷ rest) h xs e =
    sample_all-whole l rest (push_versions (push h s) vs) (going_on xs (workers_of l vs))
      (push_versions-latest l (push h s) vs xs e)

-- The history of a server refines one that keeps every point: after any samples, each sparkline
-- holds the last 120 points of its whole series (all of them, if there are fewer), and in that of
-- the synchronous matches a rate that is not known shows the last one that was, or zero before any.
-- So does the sparkline of each version's workers, whose series starts again where a sample has not
-- had the version.
pub sample_all_refines :
    (ps : List Sampled)
    → (without_versions (sample_all no_history ps) ≡ view (map (λ p. p.0) ps))
      × ((l : String)
          → series_of l (sample_all no_history ps).workers_by_version
            ≡ latest (whole l [] (map (λ p. p.1) ps)))
unfolding no_history series_of latest
sample_all_refines ps = (
  sample_all-push_all ps no_history ∙ push_all_refines (map (λ p. p.0) ps),
  λ l. sample_all-whole l ps no_history [] refl,
)
