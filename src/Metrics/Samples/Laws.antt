-- ===== src/Metrics/Samples/Laws.antt =====
-- internal/metrics/syncmatch.go: parseSample reads the value of a printed sample.
use temporal_serverless_rain.Base.{
  ℕ, [], ◌∷◌, ◌++◌, Option, none, some, false, ◌≡◌, refl, ◌≢◌, arith,
}
use temporal_serverless_rain.Metrics.Text.{
  Text, before, behind, extend, skip, skip_spaces, word, first_field, is_space, Lacks, IsWord,
}
use temporal_serverless_rain.Metrics.Samples.{Number, parse_sample, valued}

-- What may stand behind the value of a sample: nothing, or a space and a timestamp.
unfoldable pub stamped : Option Text → Text
stamped none = []
stamped (some t) = b' ' ∷ t

-- A sample as an endpoint prints it: name{labels} value [timestamp].
unfoldable pub print : Text → Text → Text → Option Text → Text
unfolding stamped
print name labels value stamp = name ++ b'{' ∷ (labels ++ b'}' ∷ (b' ' ∷ (value ++ stamped stamp)))

before-append : (b : ℕ) (p s : Text) → Lacks b p → before b (p ++ b ∷ s) ≡ some p
unfolding before extend
before-append b [] s h = ground arith
before-append b (c ∷ p) s (hc, hp) = simp (hc, before-append b p s hp) (refl)

skip-append : (p s : Text) → skip p (p ++ s) ≡ s
unfolding skip
skip-append [] s = refl
skip-append (c ∷ p) s = skip-append p s

behind-Lacks : (b : ℕ) (s : Text) → Lacks b s → behind b s ≡ none
unfolding behind
behind-Lacks b [] h = refl
behind-Lacks b (c ∷ s) (hc, hs) = rw (behind-Lacks b s hs, hc) (refl)

behind-append : (b : ℕ) (p s : Text) → Lacks b s → behind b (p ++ b ∷ s) ≡ some s
unfolding behind
behind-append b [] s h = rw (behind-Lacks b s h) (ground arith)
behind-append b (c ∷ p) s h = rw (behind-append b p s h) (refl)

word-space : (t : Text) → word (b' ' ∷ t) ≡ []
unfolding word is_space
word-space t = refl

skip_spaces-space : (t : Text) → skip_spaces (b' ' ∷ t) ≡ skip_spaces t
unfolding skip_spaces is_space
skip_spaces-space t = refl

skip_spaces-IsWord : (c : ℕ) (t : Text) → is_space c ≡ false → skip_spaces (c ∷ t) ≡ c ∷ t
unfolding skip_spaces
skip_spaces-IsWord c t h = rw h (refl)

word-stamped : (w : Text) (stamp : Option Text) → IsWord w → word (w ++ stamped stamp) ≡ w
unfolding stamped word
word-stamped [] none h = refl
word-stamped [] (some t) h = word-space t
word-stamped (c ∷ w) stamp (hc, hw) = rw (word-stamped w stamp hw, hc) (refl)

first_field-stamped :
    (w : Text) (stamp : Option Text)
    → w ≢ []
    → IsWord w
    → first_field (b' ' ∷ (w ++ stamped stamp)) ≡ some w
unfolding first_field
first_field-stamped [] stamp h hw = absurd (h refl)
first_field-stamped (c ∷ w) stamp h (hc, hw) =
    rw
      (
        first_field,
        skip_spaces-space,
        skip_spaces-IsWord c (w ++ stamped stamp) hc,
        word-stamped (c ∷ w) stamp (hc, hw),
      )
      (refl)

parse_sample-parts :
    (parse_float : Text → Option Number) (line : Text) {name rest value : Text} {v : Number}
    → before b'{' line ≡ some name
    → behind b'}' (skip name line) ≡ some rest
    → first_field rest ≡ some value
    → parse_float value ≡ some v
    → parse_sample parse_float line ≡ some (name, v)
unfolding parse_sample valued
parse_sample-parts parse_float line hn hb hf hv = rw (parse_sample, hn, hb, hf, valued, hv) (refl)

-- The value of a printed sample is read back, and its name, with a timestamp behind it or without
-- one and whatever the labels hold. The conditions: the name holds no opening brace; the value is
-- a word, which strconv.ParseFloat reads; and no closing brace follows the labels.
pub parse_sample-print :
    (parse_float : Text → Option Number) (name labels value : Text) (stamp : Option Text)
    (v : Number)
    → Lacks b'{' name
    → value ≢ []
    → IsWord value
    → Lacks b'}' (value ++ stamped stamp)
    → parse_float value ≡ some v
    → parse_sample parse_float (print name labels value stamp) ≡ some (name, v)
unfolding print
parse_sample-print parse_float name labels value stamp v hn hne hw hl hv =
    parse_sample-parts parse_float _ (before-append b'{' name _ hn)
      (rw (skip-append name (b'{' ∷ (labels ++ b'}' ∷ (b' ' ∷ (value ++ stamped stamp)))))
        (behind-append b'}' (b'{' ∷ labels) (b' ' ∷ (value ++ stamped stamp)) (refl, hl)))
      (first_field-stamped value stamp hne hw) hv
