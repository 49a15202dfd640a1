-- ===== src/SpscQueue/Ring.antt =====
-- The slots of the ring, and the elements that it holds.
use hftperformance.Prelude.{
  ℕ, ◌+◌, ◌-◌, ◌%◌, ◌<◌, ◌≡◌, ◌∙◌, ap, List, [], ◌∷◌, ◌++◌, arith, ltb, ltb→lt, Bool-cases, inl,
  inr, subst, if◌then◌else◌, length, update, update_ne,
}
use native.Mathlib.Nat.{mod-eq_of_lt, mod_self}
use hftperformance.SpscQueue.{increment}

-- The slot `i` places behind slot `h`.
abbrev pub slot : ℕ → ℕ → ℕ → ℕ
slot c h i = if ltb (h + i) c then h + i else h + i - c

pub increment-slot : (c h : ℕ) → h < c → increment c h ≡ slot c h 1
unfolding increment
increment-slot c h lt = elim (Bool-cases (ltb (h + 1) c)) [
  | inl e ↦ rw e (mod-eq_of_lt (ltb→lt (h + 1) c e))
  | inr e ↦
      let last : h + 1 ≡ c = ground (arith, e, lt) in
      rw e (ap (λ n. n % c) last ∙ mod_self c ∙ omega (arith, last))
]

pub slot-slot : (c h i j : ℕ) → h < c → i + j < c → slot c (slot c h i) j ≡ slot c h (i + j)
slot-slot c h i j lt r = ground arith

-- From slot `h` on, the buffer holds the elements `xs`.
abbrev pub Holds {ℓ} : {A : Type ℓ} → (ℕ → A) → ℕ → ℕ → List A → Type ℓ
Holds buffer c h [] = Unit
Holds buffer c h (x ∷ xs) = (buffer h ≡ x) × Holds buffer c (slot c h 1) xs

pub Holds-push {ℓ} :
    {A : Type ℓ} (buffer : ℕ → A) (c h : ℕ) (xs : List A) (x : A)
    → h < c
    → length xs < c
    → Holds buffer c h xs
    → Holds (update buffer (slot c h (length xs)) x) c h (xs ++ x ∷ [])
Holds-push buffer c h [] x lt r w = (ground arith, tt)
Holds-push buffer c h (y ∷ xs) x lt r w = (
  update_ne buffer x (ground arith) ∙ w.0,
  subst (λ t. Holds (update buffer t x) c (slot c h 1) (xs ++ x ∷ [])) next
      (Holds-push buffer c (slot c h 1) xs x (ground arith) (omega arith) w.1),
)
  where
    next : slot c (slot c h 1) (length xs) ≡ slot c h (length (y ∷ xs))
    next = ground (arith, slot-slot c h 1 (length xs) lt (omega arith))
