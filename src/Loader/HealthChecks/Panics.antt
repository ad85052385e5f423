-- ===== src/Loader/HealthChecks/Panics.antt =====
-- When the labels of a readiness check make the program panic.
use kompose.Base.{
  ◌≡◌, ◌≢◌, ◌↔◌, refl, Option, List, [], ◌∷◌, elements, Text, codes, ==_iff, Option-cases, arith,
}
use kompose.Base.Int.{ℤ}
use kompose.Base.Dict.{Dict}
use kompose.Base.Outcome.{Outcome, ok, err, panic, ◌>>=◌}
use kompose.Kobject.{HealthCheck}
use kompose.Loader.Labels.{Cast}
use kompose.Loader.HealthChecks.{
  drop_command_word, finish_test, no_readiness, read_check_label, read_check_labels,
  parse_health_check_readiness,
}

drop-panics : (t : List Text) → (drop_command_word t ≡ panic) ↔ (t ≡ [])
unfolding drop_command_word
drop-panics [] = (λ _. refl, λ _. refl)
drop-panics (word ∷ words) = ground arith

cons-panics :
    (word : Text) (words : List Text) (h : HealthCheck)
    → elements h.test ≡ word ∷ words
    → (finish_test h ≡ panic) ↔ (elements h.test ≡ codes "NONE" ∷ [])
unfolding finish_test
cons-panics word words h e =
    ground (arith, e, ==_iff word (codes "NONE"), drop-panics words, drop-panics (word ∷ words))

nil-panics : (h : HealthCheck) → elements h.test ≡ [] → finish_test h ≢ panic
unfolding finish_test
nil-panics h e = ground (arith, e)

finish-panics : (h : HealthCheck) → (finish_test h ≡ panic) ↔ (elements h.test ≡ codes "NONE" ∷ [])
finish-panics h = by_test h (elements h.test) refl
  where
    by_test :
        (h : HealthCheck) (t : List Text)
        → elements h.test ≡ t
        → (finish_test h ≡ panic) ↔ (elements h.test ≡ codes "NONE" ∷ [])
    by_test h [] e = (λ p. absurd (nil-panics h e p), λ q. absurd (ground (arith, e, q)))
    by_test h (word ∷ words) e = cons-panics word words h e

bind-safe :
    (o : Outcome HealthCheck) (f : HealthCheck → Outcome HealthCheck)
    → o ≢ panic
    → ((g : HealthCheck) → f g ≢ panic)
    → (o >>= f) ≢ panic
bind-safe (ok g) f n m = m g
bind-safe err f n m = ground arith
bind-safe panic f n m = λ e. n refl

module _ (cast : Cast) (split_words : Text → List Text) (seconds_of : Text → Option ℤ) where
  label-safe :
      (key value : Text) (h : HealthCheck)
      → read_check_label cast split_words seconds_of key value h ≢ panic
  unfolding read_check_label
  label-safe key value h = ground (arith, Option-cases (seconds_of value))

  labels-safe :
      (labels : Dict Text) (h : HealthCheck)
      → read_check_labels cast split_words seconds_of labels h ≢ panic
  unfolding read_check_labels
  labels-safe [] h = ground arith
  labels-safe ((key, value) ∷ labels) h =
      bind-safe (read_check_label cast split_words seconds_of key value h)
        (λ g. read_check_labels cast split_words seconds_of labels g) (label-safe key value h)
        (λ g. labels-safe labels g)

  -- Whatever the labels, parseHealthCheckReadiness panics exactly if the labels are read and leave the
  -- test that is the word NONE alone.
  pub parse_health_check_readiness-panics :
      (labels : Dict Text)
      → (parse_health_check_readiness cast split_words seconds_of labels ≡ panic) ↔ (
          (h : HealthCheck) × (read_check_labels cast split_words seconds_of labels no_readiness
            ≡ ok h)
          × (elements h.test ≡ codes "NONE" ∷ []))
  unfolding parse_health_check_readiness
  parse_health_check_readiness-panics labels =
      split_outcome (read_check_labels cast split_words seconds_of labels no_readiness)
        (labels-safe labels no_readiness)
    where
      split_outcome :
          (o : Outcome HealthCheck)
          → o ≢ panic
          → ((o >>= λ h. finish_test h) ≡ panic)
            ↔ ((h : HealthCheck) × (o ≡ ok h) × (elements h.test ≡ codes "NONE" ∷ []))
      split_outcome (ok g) n = (
        λ e. (g, refl, (finish-panics g).0 e),
        λ (h, i, j). (finish-panics g).1 (ground (arith, i, j)),
      )
      split_outcome err n = (λ e. absurd (ground arith), λ (h, i, j). absurd (ground (arith, i)))
      split_outcome panic n = absurd (n refl)
