-- ===== src/Redaction/Entropy/Maximal.antt =====
-- The maximal runs of token bytes of a text, for entropy.rs.
use clipy_si_core.Common.{
  ℕ, zero, suc, ◌+◌, ◌-◌, ◌≤◌, ◌<◌, ◌≡◌, refl, ap, ◌∙◌, inl, inr, Bool, true, false, Bool-cases,
  ltb, leb, ltb→lt, leb→le, [], ◌∷◌, arith, drop,
}
use clipy_si_core.Redaction.Entropy.{is_token_byte}
use clipy_si_core.Text.{Bytes}

-- Whether there is a token byte at an offset.
abbrev pub token_at : Bytes → ℕ → Bool
token_at [] k = false
token_at (b ∷ bs) zero = is_token_byte b
token_at (b ∷ bs) (suc k) = token_at bs k

-- Token bytes from `s` on, up to `e` and no further, and none right before.
pub record IsMaximal (bytes : Bytes) (s e : ℕ) : Type 0 where
  pub nonempty : s < e
  pub tokens : (k : ℕ) → s ≤ k → k < e → token_at bytes k ≡ true
  pub ends : token_at bytes e ≡ false
  pub starts : (k : ℕ) → suc k ≡ s → token_at bytes k ≡ false

pub token_at-drop : (n : ℕ) (bs : Bytes) (k : ℕ) → token_at (drop n bs) k ≡ token_at bs (n + k)
token_at-drop zero bs k = ap (token_at bs) (let e : k ≡ 0 + k = omega arith in e)
token_at-drop (suc n) [] k = refl
token_at-drop (suc n) (b ∷ bs) k =
    token_at-drop n bs k
    ∙ ap (token_at (b ∷ bs)) (let e : suc (n + k) ≡ suc n + k = omega arith in e)

-- Two maximal runs that begin together end together, and otherwise the later one begins after the
-- end of the other.
module _ (w : Bytes) where
  pub same_end : (s e e' : ℕ) → IsMaximal w s e → IsMaximal w s e' → e ≡ e'
  same_end s e e' h h' = elim (Bool-cases (ltb e e')) [
    | inl l ↦ absurd (clash e (h'.tokens e (omega (arith, h.nonempty)) (ltb→lt e e' l)) h.ends)
    | inr l ↦ elim (Bool-cases (ltb e' e)) [
      | inl l' ↦
          absurd (clash e' (h.tokens e' (omega (arith, h'.nonempty)) (ltb→lt e' e l')) h'.ends)
      | inr l' ↦ ground (arith, l, l')
    ]
  ]
    where
      clash : (k : ℕ) → token_at w k ≡ true → token_at w k ≡ false → ⊥
      clash k a b = cc

  pub begins_after : (s e s' e' : ℕ) → IsMaximal w s e → IsMaximal w s' e' → s < s' → e ≤ s'
  begins_after s e zero e' h h' l = absurd (omega arith)
  begins_after s e (suc k) e' h h' l = elim (Bool-cases (leb e (suc k))) [
    | inl a ↦ leb→le e (suc k) a
    | inr a ↦ let t = h.tokens k (omega arith) (ground (arith, a)) in let f = h'.starts k refl in cc
  ]

  pub none_left : (i s e : ℕ) → drop i w ≡ [] → i ≤ s → IsMaximal w s e → ⊥
  none_left i s e d l h =
      let t = h.tokens s (omega arith) h.nonempty in
      let f = token_at-drop i w (s - i) in
      let at : i + (s - i) ≡ s = omega arith in
      let g = ap (λ r. token_at r (s - i)) d in
      let t' : token_at w (i + (s - i)) ≡ true = rw at t in cc
