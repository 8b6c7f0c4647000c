-- ===== src/Redaction/Patterns/Gate/Laws.antt =====
-- What the gate on a value says of quotes around it, of placeholders in it, and of what it lets pass.
use clipy_si_core.Common.{
  ℕ, ◌≡◌, refl, ap, ◌∙◌, inl, inr, Bool, true, false, Bool-cases, List, [], ◌∷◌, ◌++◌, arith, any,
}
use clipy_si_core.Redaction.Patterns.Gate.{
  is_quote, trim_start, trim_end, trim_matches, to_ascii_lowercase, starts_with, contains,
  looks_like_secret_value, strong_placeholder_fragments,
}
use clipy_si_core.Text.{Bytes, Chars}

starts_with-append : (p s : Bytes) → starts_with (p ++ s) p ≡ true
unfolding starts_with
starts_with-append [] [] = refl
starts_with-append [] (c ∷ cs) = refl
starts_with-append (x ∷ p) s = ground (arith, starts_with-append p s)

-- A text that has another inside contains it.
contains-append : (l p r : Bytes) → contains (l ++ (p ++ r)) p ≡ true
unfolding contains
contains-append [] [] [] = refl
contains-append [] [] (c ∷ r) = refl
contains-append [] (x ∷ p) r = ground (arith, starts_with-append (x ∷ p) r)
contains-append (c ∷ l) p r = ground (arith, contains-append l p r)

any_at :
    (p : Bytes → Bool) (l : List Bytes) (x : Bytes) (r : List Bytes)
    → p x ≡ true
    → any p (l ++ (x ∷ r)) ≡ true
any_at p [] x r h = ground (arith, h)
any_at p (y ∷ l) x r h = ground (arith, any_at p l x r h)

trim_end-quote : (s : Chars) (q : ℕ) → is_quote q ≡ true → trim_end (s ++ (q ∷ [])) ≡ trim_end s
unfolding trim_end
trim_end-quote [] q h = ground (arith, h)
trim_end-quote (c ∷ s) q h = rw (trim_end-quote s q h) refl

-- Quotes behind a text are trimmed off, whatever is before them.
trim-quote :
    (s : Chars) (q : ℕ)
    → is_quote q ≡ true
    → trim_end (trim_start (s ++ (q ∷ []))) ≡ trim_end (trim_start s)
unfolding trim_start
trim-quote [] q h = ground (arith, h)
trim-quote (c ∷ s) q h = elim (Bool-cases (is_quote c)) [
  | inl e ↦ rw (e, trim_start) (trim-quote s q h)
  | inr e ↦ rw (e, trim_start) (trim_end-quote (c ∷ s) q h)
]

trim_matches-quotes :
    (q : ℕ) (s : Chars) (r : ℕ)
    → is_quote q ≡ true
    → is_quote r ≡ true
    → trim_matches (q ∷ (s ++ (r ∷ []))) ≡ trim_matches s
unfolding trim_matches trim_start
trim_matches-quotes q s r h k = rw (h, trim_start) (trim-quote s r k)

-- A pair of quotes around a value does not matter.
pub looks_like_secret_value-quotes :
    (q : ℕ) (value : Chars) (r : ℕ)
    → is_quote q ≡ true
    → is_quote r ≡ true
    → looks_like_secret_value (q ∷ (value ++ (r ∷ []))) ≡ looks_like_secret_value value
unfolding looks_like_secret_value
looks_like_secret_value-quotes q value r h k = rw (trim_matches-quotes q value r h k) refl

placeholder_refused :
    (value : Chars)
    → any (contains (to_ascii_lowercase (trim_matches value))) strong_placeholder_fragments ≡ true
    → looks_like_secret_value value ≡ false
unfolding looks_like_secret_value
placeholder_refused value h = ground (arith, h)

-- A value that has one of the placeholder fragments anywhere between the quotes around it, in upper
-- or lower case, is not taken for a secret, nor is it in another pair of quotes.
pub looks_like_secret_value-placeholder :
    (value l p r : Chars) (before after : List Bytes) (q q' : ℕ)
    → strong_placeholder_fragments ≡ before ++ (p ∷ after)
    → to_ascii_lowercase (trim_matches value) ≡ l ++ (p ++ r)
    → is_quote q ≡ true
    → is_quote q' ≡ true
    → (looks_like_secret_value value ≡ false)
      × (looks_like_secret_value (q ∷ (value ++ (q' ∷ []))) ≡ false)
looks_like_secret_value-placeholder value l p r before after q q' f e h k =
    let inside : contains (to_ascii_lowercase (trim_matches value)) p ≡ true =
      ap (λ s. contains s p) e ∙ contains-append l p r in
    let listed =
      ap (any (contains (to_ascii_lowercase (trim_matches value)))) f
      ∙ any_at (contains (to_ascii_lowercase (trim_matches value))) before p after inside in
    let refused = placeholder_refused value listed in
    (refused, looks_like_secret_value-quotes q value q' h k ∙ refused)
