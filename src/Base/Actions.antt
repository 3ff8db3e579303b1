-- ===== src/Base/Actions.antt =====
-- Calls that read and change a state and may raise: the state that they leave is kept when they raise.
use mathlib.Core.Path.{◌≡◌, refl}
use mathlib.Core.List.{List, [], ◌∷◌}
use ma_sinafadavi_gpt.Base.Exceptions.{Result, ok, err}

abbrev pub Action : Type 0 → Type 0 → Type 0
Action S A = S → Result A × S

module _ {S : Type 0} where
  unfoldable pub bound : {A W : Type 0} → Result A × S → (A → Action S W) → Result W × S
  bound (ok a, s) rest = rest a s
  bound (err e, s) rest = (err e, s)

  -- What stands behind a call.
  unfoldable pub next : {A W : Type 0} → Action S A → (A → Action S W) → Action S W
  unfolding bound
  next call rest s = bound (call s) rest

  abbrev pub pure : {A : Type 0} → A → Action S A
  pure a s = (ok a, s)

  -- A call that only reads.
  abbrev pub reading : {A : Type 0} → (S → Result A) → Action S A
  reading read s = (read s, s)

  -- `for x in xs: body(x)`
  unfoldable pub each : {A : Type 0} → (A → Action S (Unit {0})) → List A → Action S (Unit {0})
  unfolding next
  each body [] s = (ok tt, s)
  each body (x ∷ xs) s = bound (body x s) (λ _. each body xs)

infixl 5 ◌>>=◌ ◌>>◌
abbrev pub ◌>>=◌ : {S A W : Type 0} → Action S A → (A → Action S W) → Action S W
call >>= rest = next call rest

abbrev pub ◌>>◌ : {S W : Type 0} → Action S (Unit {0}) → Action S W → Action S W
call >> rest = next call (λ _. rest)

module _ {ℓ} {S : Type 0} (P : S → Type ℓ) where
  -- What a call keeps, whether or not it raises.
  abbrev pub Keeps : {A : Type 0} → Action S A → Type ℓ
  Keeps call = (s : S) → P s → P (call s).1

  bound-keeps :
      {A W : Type 0} (r : Result A × S) (rest : A → Action S W)
      → P r.1
      → ((a : A) → Keeps (rest a))
      → P (bound r rest).1
  unfolding bound
  bound-keeps (ok a, s) rest h k = k a s h
  bound-keeps (err e, s) rest h k = h

  pub next-Keeps :
      {A W : Type 0} (call : Action S A) (rest : A → Action S W)
      → Keeps call
      → ((a : A) → Keeps (rest a))
      → Keeps (next call rest)
  unfolding next
  next-Keeps call rest h k s p = bound-keeps (call s) rest (h s p) k

  pub each-Keeps :
      {A : Type 0} (body : A → Action S (Unit {0}))
      → ((x : A) → Keeps (body x))
      → (xs : List A) → Keeps (each body xs)
  unfolding each
  each-Keeps body h [] s p = p
  each-Keeps body h (x ∷ xs) s p =
      bound-keeps (body x s) (λ _. each body xs) (h x s p) (λ _. each-Keeps body h xs)

  bound-read :
      {A W : Type 0} (r : Result A) (s : S) (rest : A → Action S W)
      → P s
      → ((a : A) → r ≡ ok a → P (rest a s).1)
      → P (bound (r, s) rest).1
  unfolding bound
  bound-read (ok a) s rest h k = k a refl
  bound-read (err e) s rest h k = h

  -- Behind a call that reads, what it read is known.
  pub reading-Keeps :
      {A W : Type 0} (read : S → Result A) (rest : A → Action S W)
      → ((s : S) (a : A) → read s ≡ ok a → P s → P (rest a s).1)
      → Keeps (next (reading read) rest)
  unfolding next
  reading-Keeps read rest k s h = bound-read (read s) s rest h (λ a e. k s a e h)
