-- ===== src/Rest/Draw.antt =====
-- `random.choice`, as the REST variant calls it: what is drawn is a parameter.
use ma_sinafadavi_gpt.Base.{
  ℕ, zero, suc, ◌%◌, ◌<◌, ◌⊎◌, inl, inr, subst, ◌≡◌, ◌≢◌, refl, Bool, Bool-cases, true, Option,
  none, some, List, [], ◌∷◌, length, select, arith,
}

module _ {A : Type 0} where
  -- `xs[n]`
  unfoldable pub item_at : ℕ → List A → Option A
  item_at n [] = none
  item_at zero (x ∷ xs) = some x
  item_at (suc n) (x ∷ xs) = item_at n xs

  -- The item that `random.choice` takes, if there is one.
  unfoldable pub choice : ℕ → List A → Option A
  choice drawn xs = item_at (drawn % length xs) xs

  -- The item is one of the list.
  abbrev pub IsOne : A → List A → Type 0
  IsOne x [] = ⊥
  IsOne x (y ∷ xs) = (y ≡ x) ⊎ IsOne x xs

  item_at_one : (n : ℕ) (xs : List A) (x : A) → item_at n xs ≡ some x → IsOne x xs
  unfolding item_at
  item_at_one n [] x h = absurd (cc)
  item_at_one zero (y ∷ xs) x h = inl cc
  item_at_one (suc n) (y ∷ xs) x h = inr (item_at_one n xs x h)

  item_at-none : (n : ℕ) (xs : List A) → n < length xs → item_at n xs ≢ none
  unfolding item_at
  item_at-none n [] h = absurd (omega arith)
  item_at-none zero (y ∷ xs) h = λ e. absurd (cc)
  item_at-none (suc n) (y ∷ xs) h = item_at-none n xs (omega arith)

  IsOne-select :
      (p : A → Bool) (xs : List A) (x : A) → IsOne x (select p xs) → IsOne x xs × (p x ≡ true)
  unfolding select
  IsOne-select p [] x h = absurd h
  IsOne-select p (y ∷ xs) x h = elim (Bool-cases (p y)) [
    | inl passes ↦ elim (rw passes at h) [
      | inl same ↦ (inl same, subst (λ z. p z ≡ true) same passes)
      | inr later ↦ let (there, fine) = IsOne-select p xs x later in (inr there, fine)
    ]
    | inr fails ↦ let (there, fine) = IsOne-select p xs x (rw fails at h) in (inr there, fine)
  ]

  -- What is drawn from the items that pass a test is one of the list and passes the test.
  pub choice_one :
      (drawn : ℕ) (p : A → Bool) (xs : List A) (x : A)
      → choice drawn (select p xs) ≡ some x
      → IsOne x xs × (p x ≡ true)
  unfolding choice
  choice_one drawn p xs x h =
      IsOne-select p xs x (item_at_one (drawn % length (select p xs)) (select p xs) x h)

remainder : (drawn n : ℕ) → drawn % suc n < suc n
remainder drawn n = omega arith

-- Only from an empty list nothing is drawn.
pub choice-none : {A : Type 0} (drawn : ℕ) (xs : List A) → choice drawn xs ≡ none → xs ≡ []
unfolding choice
choice-none drawn [] h = refl
choice-none drawn (x ∷ xs) h =
    absurd (item_at-none (drawn % length (x ∷ xs)) (x ∷ xs) (remainder drawn (length xs)) h)
