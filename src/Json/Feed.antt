-- ===== src/Json/Feed.antt =====
-- The scanner on a run of bytes none of which it refuses.
use couchbase_rs.Json.{Scanner, ScanState, ParseState, Step, Stepped}
use couchbase_rs.Json.Run.{step, is_error, unless_error, scan_from}
use couchbase_rs.Prelude.{
  ℕ, Bool, true, false, List, [], ◌∷◌, ◌++◌, Option, none, some, ◌≡◌, refl, if◌then◌else◌,
}

abbrev pub unless_refused : Option Stepped → (Scanner → Option Scanner) → Option Scanner
unless_refused none _ = none
unless_refused (some (s, answer)) rest = if is_error answer then none else rest s

unfoldable pub feed : List ℕ → Scanner → Option Scanner
feed [] s = some s
feed (c ∷ bytes) s = unless_refused (step s c) (feed bytes)

-- A scanner with no error, inside of the value.
abbrev pub at : Step → List ParseState → Scanner
at q stack = record { step = q; end_top = false; parse_state = stack; err = none }

refused_by :
    (refused : Bool) (x y : Option Scanner) {t u : Scanner}
    → (x ≡ some t → y ≡ some u)
    → (if refused then none else x) ≡ some t
    → (if refused then none else y) ≡ some u
refused_by true _ _ _ e = cc
refused_by false _ _ h e = h e

refused_lem :
    (o : Option Stepped) (f g : Scanner → Option Scanner) {t u : Scanner}
    → ((s : Scanner) → f s ≡ some t → g s ≡ some u)
    → unless_refused o f ≡ some t
    → unless_refused o g ≡ some u
refused_lem none _ _ _ e = cc
refused_lem (some (s, answer)) f g h e = refused_by (is_error answer) (f s) (g s) (h s) e

-- What is fed in two parts.
pub feed-append :
    (xs ys : List ℕ) (s : Scanner) {t u : Scanner}
    → feed xs s ≡ some t
    → feed ys t ≡ some u
    → feed (xs ++ ys) s ≡ some u
unfolding feed
feed-append [] ys s {t} p q = let e : s ≡ t = cc in rw e q
feed-append (c ∷ xs) ys s p q =
    refused_lem (step s c) (feed xs) (feed (xs ++ ys)) (λ s2 e. feed-append xs ys s2 e q) p

verdict_by :
    (refused : Bool) (x : Option Scanner) (y : Option ScanState) {t : Scanner}
    {b : Option ScanState}
    → (x ≡ some t → y ≡ b)
    → (if refused then none else x) ≡ some t
    → (if refused then some ScanState.error else y) ≡ b
verdict_by true _ _ _ e = cc
verdict_by false _ _ h e = h e

verdict_lem :
    (o : Option Stepped) (f : Scanner → Option Scanner) (g : Scanner → Option ScanState)
    {t : Scanner} {b : Option ScanState}
    → ((s : Scanner) → f s ≡ some t → g s ≡ b)
    → unless_refused o f ≡ some t
    → unless_error o g ≡ b
verdict_lem none _ _ _ e = cc
verdict_lem (some (s, answer)) f g h e = verdict_by (is_error answer) (f s) (g s) (h s) e

-- The answer on bytes that are fed is the one behind them.
pub scan_from-feed :
    (xs ys : List ℕ) (s : Scanner) {t : Scanner}
    → feed xs s ≡ some t
    → scan_from (xs ++ ys) s ≡ scan_from ys t
unfolding feed scan_from
scan_from-feed [] ys s {t} p = let e : s ≡ t = cc in rw e refl
scan_from-feed (c ∷ xs) ys s p =
    verdict_lem (step s c) (feed xs) (scan_from (xs ++ ys)) (λ s2 e. scan_from-feed xs ys s2 e) p
