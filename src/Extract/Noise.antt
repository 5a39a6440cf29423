-- ===== src/Extract/Noise.antt =====
-- White space and letter case around the words of a message.
use mathlib.Core.List.{reverse, reverse-cons, reverse-append, reverse-reverse, append_assoc}
use syrotp.Prelude.{
  ℕ, ◌≡◌, refl, sym, ap, ◌∙◌, ◌≢◌, Text, length, drop, map, All, All-append, trim, trim_start,
  strip_spaces, starts_with, is_space, ascii_upper, true, false, [], ◌∷◌, ◌++◌, arith,
}

abbrev pub Spaces : Text → Type 0
Spaces = All (λ c. is_space c ≡ true)

abbrev pub NoSpaces : Text → Type 0
NoSpaces = All (λ c. is_space c ≡ false)

trim_start_of_Spaces : (a s : Text) → Spaces a → trim_start (a ++ s) ≡ trim_start s
unfolding trim_start
trim_start_of_Spaces [] s h = refl
trim_start_of_Spaces (c ∷ a) s (p, h) = rw p (trim_start_of_Spaces a s h)

trim_start_of_word : (a s : Text) → NoSpaces a → a ≢ [] → trim_start (a ++ s) ≡ a ++ s
unfolding trim_start
trim_start_of_word [] s h n = absurd (n refl)
trim_start_of_word (c ∷ a) s (p, h) n = rw p

reverse-Spaces : (a : Text) → Spaces a → Spaces (reverse a)
reverse-Spaces [] h = tt
reverse-Spaces (c ∷ a) (p, h) =
    rw (reverse-cons c a) (All-append _ (reverse a) (c ∷ []) (reverse-Spaces a h) (p, tt))

reverse-NoSpaces : (a : Text) → NoSpaces a → NoSpaces (reverse a)
reverse-NoSpaces [] h = tt
reverse-NoSpaces (c ∷ a) (p, h) =
    rw (reverse-cons c a) (All-append _ (reverse a) (c ∷ []) (reverse-NoSpaces a h) (p, tt))

reverse-ne-nil : (a : Text) → a ≢ [] → reverse a ≢ []
reverse-ne-nil a n e = n (sym (reverse-reverse a) ∙ ap reverse e)

-- Trimming a text that begins and ends with a word leaves just what stands between the words.
pub trim_around :
    (lead w mid c trail : Text)
    → Spaces lead
    → Spaces trail
    → NoSpaces w
    → NoSpaces c
    → w ≢ []
    → c ≢ []
    → trim (lead ++ (w ++ (mid ++ (c ++ trail)))) ≡ w ++ (mid ++ c)
unfolding trim
trim_around lead w mid c trail hl ht hw hc nw nc =
    rw
      (
        trim_start_of_Spaces lead (w ++ (mid ++ (c ++ trail))) hl,
        trim_start_of_word w (mid ++ (c ++ trail)) hw nw,
      )
      (simp (reverse-append, append_assoc)
        (rw
          (
            trim_start_of_Spaces (reverse trail) (reverse c ++ (reverse mid ++ reverse w))
                (reverse-Spaces trail ht),
            trim_start_of_word (reverse c) (reverse mid ++ reverse w) (reverse-NoSpaces c hc)
                (reverse-ne-nil c nc),
          )
          (simp (reverse-append, append_assoc, reverse-reverse))))

pub strip_spaces_of_NoSpaces : (a : Text) → NoSpaces a → strip_spaces a ≡ a
unfolding strip_spaces
strip_spaces_of_NoSpaces [] h = refl
strip_spaces_of_NoSpaces (c ∷ a) (p, h) = rw p (ap (◌∷◌ c) (strip_spaces_of_NoSpaces a h))

strip_spaces_of_Spaces : (a s : Text) → Spaces a → strip_spaces (a ++ s) ≡ strip_spaces s
unfolding strip_spaces
strip_spaces_of_Spaces [] s h = refl
strip_spaces_of_Spaces (c ∷ a) s (p, h) = rw p (strip_spaces_of_Spaces a s h)

pub strip_gap : (gap c : Text) → Spaces gap → NoSpaces c → strip_spaces (gap ++ c) ≡ c
strip_gap gap c h k = strip_spaces_of_Spaces gap c h ∙ strip_spaces_of_NoSpaces c k

-- Upper-casing keeps white space.
is_space-ascii_upper : (c : ℕ) → is_space (ascii_upper c) ≡ is_space c
unfolding is_space
is_space-ascii_upper c = ground arith

pub map-ascii_upper-Spaces : (a : Text) → Spaces a → Spaces (map ascii_upper a)
map-ascii_upper-Spaces [] h = tt
map-ascii_upper-Spaces (c ∷ a) (p, h) = (is_space-ascii_upper c ∙ p, map-ascii_upper-Spaces a h)

pub NoSpaces-of_upper : (a b : Text) → map ascii_upper a ≡ b → NoSpaces b → NoSpaces a
NoSpaces-of_upper a b e h = go a (rw e h)
  where
    go : (x : Text) → NoSpaces (map ascii_upper x) → NoSpaces x
    go [] k = tt
    go (c ∷ x) (p, k) = (sym (is_space-ascii_upper c) ∙ p, go x k)

pub starts_with-append : (p s : Text) → starts_with (p ++ s) p ≡ true
starts_with-append [] s = refl
starts_with-append (c ∷ p) s = ground (arith, starts_with-append p s)

pub drop-append : (p s : Text) → drop (length p) (p ++ s) ≡ s
drop-append [] s = refl
drop-append (c ∷ p) s = drop-append p s
