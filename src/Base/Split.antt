-- ===== src/Base/Split.antt =====
-- `str.split` by a separator of one character.
use Prim.Native.Nat.{ℕ}
use mathlib.Core.Path.{◌≡◌, refl}
use mathlib.Core.Logic.{◌≢◌}
use mathlib.Core.Option.{Option, none, some}
use mathlib.Core.List.{List, [], ◌∷◌, ◌++◌}
use native.Mathlib.Omega.{arith}
use ma_sinafadavi_gpt.Base.Lists.{All}
use ma_sinafadavi_gpt.Base.Strings.{Text}
use ma_sinafadavi_gpt.Base.Tests.{◌==◌, if◌then◌else◌}

-- `s.split(sep, 1)[0]`
unfoldable pub before : ℕ → Text → Text
before sep [] = []
before sep (c ∷ s) = let rest = c ∷ before sep s in if c == sep then [] else rest

-- `s.split(sep, 1)[1]`, if the separator is there
unfoldable pub after : ℕ → Text → Option Text
after sep [] = none
after sep (c ∷ s) = let rest = after sep s in if c == sep then some s else rest

push : ℕ → List Text → List Text
push c [] = (c ∷ []) ∷ []
push c (p ∷ ps) = (c ∷ p) ∷ ps

-- `s.split(sep)`
unfoldable pub split : ℕ → Text → List Text
unfolding push
split sep [] = [] ∷ []
split sep (c ∷ s) = let rest = split sep s in if c == sep then [] ∷ rest else push c rest

-- No character of the text is the separator.
abbrev pub Lacks : ℕ → Text → Type 0
Lacks sep = All (λ c. c ≢ sep)

module _ (sep : ℕ) where
  pub before-append : (s t : Text) → Lacks sep s → before sep (s ++ sep ∷ t) ≡ s
  unfolding before
  before-append [] t h = ground arith
  before-append (c ∷ s) t (hc, hs) = ground (arith, before-append s t hs)

  pub after-append : (s t : Text) → Lacks sep s → after sep (s ++ sep ∷ t) ≡ some t
  unfolding after
  after-append [] t h = ground arith
  after-append (c ∷ s) t (hc, hs) = ground (arith, after-append s t hs)

  pub split-Lacks : (s : Text) → Lacks sep s → split sep s ≡ s ∷ []
  unfolding split
  split-Lacks [] h = refl
  split-Lacks (c ∷ s) (hc, hs) = ground (arith, split-Lacks s hs)

  pub split-append : (s t : Text) → Lacks sep s → split sep (s ++ sep ∷ t) ≡ s ∷ split sep t
  unfolding split
  split-append [] t h = ground arith
  split-append (c ∷ s) t (hc, hs) = ground (arith, split-append s t hs)
