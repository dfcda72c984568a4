-- ===== src/CString/Words.antt =====
-- The words of a text, and its cut into leading spaces, a word and the rest.
use mathlib.Core.Path.{subst}
use multithreaded_chat_appli.Base.{
  ℕ, zero, suc, List, [], ◌∷◌, ◌++◌, ◌==◌, if◌then◌else◌, Text, replicate, ◌≡◌, refl, ◌≢◌, ap,
  arith, All, Bool-cases, inl, inr, ==_iff, sym, ◌∙◌,
}
use multithreaded_chat_appli.CString.{space}

-- A word is put before the others unless it is empty.
unfoldable pub push : Text → List Text → List Text
push [] ws = ws
push (c ∷ w) ws = (c ∷ w) ∷ ws

-- The bytes before the first space, and the words behind it.
unfoldable pub split : Text → Text × List Text
split [] = ([], [])
split (c ∷ t) = let r = split t in if c == space then ([], push r.0 r.1) else (c ∷ r.0, r.1)

-- The words of a text: its longest runs of bytes other than the space, in order.
unfoldable pub words : Text → List Text
words t = push (split t).0 (split t).1

abbrev pub IsPlain : ℕ → Type 0
IsPlain c = (c ≢ 0) × (c ≢ space)

-- The three forms of a text.
pub data Shape : Text → Type 0 where
  blank : (k : ℕ) → Shape (replicate k space)
  last : (k c : ℕ) (w : Text) → IsPlain c → All IsPlain w → Shape (replicate k space ++ (c ∷ w))
  more :
      (k c : ℕ) (w t : Text)
      → IsPlain c
      → All IsPlain w
      → All (λ d. d ≢ 0) t
      → Shape (replicate k space ++ ((c ∷ w) ++ (space ∷ t)))

-- One more byte in front of a text whose form is known.
shape-space : {t : Text} → Shape t → Shape (space ∷ t)
shape-space (blank k) = blank (suc k)
shape-space (last k c w p q) = last (suc k) c w p q
shape-space (more k c w t p q r) = more (suc k) c w t p q r

shape-plain : {t : Text} (c : ℕ) → IsPlain c → All (λ d. d ≢ 0) t → Shape t → Shape (c ∷ t)
shape-plain c p h (blank zero) = last 0 c [] p tt
shape-plain c p h (blank (suc k)) = more 0 c [] (replicate k space) p tt h.1
shape-plain c p h (last zero d w q r) = last 0 c (d ∷ w) p (q, r)
shape-plain c p h (last (suc k) d w q r) = more 0 c [] (replicate k space ++ (d ∷ w)) p tt h.1
shape-plain c p h (more zero d w t q r s) = more 0 c (d ∷ w) t p (q, r) s
shape-plain c p h (more (suc k) d w t q r s) =
    more 0 c [] (replicate k space ++ ((d ∷ w) ++ (space ∷ t))) p tt h.1

pub shape : (t : Text) → All (λ d. d ≢ 0) t → Shape t
shape [] h = blank 0
shape (c ∷ t) h = elim (Bool-cases (c == space)) [
  | inl e ↦ subst (λ d. Shape (d ∷ t)) (sym ((==_iff c space).0 e)) (shape-space (shape t h.1))
  | inr e ↦ shape-plain c (h.0, ground arith) h.1 (shape t h.1)
]

pub words-space : (t : Text) → words (space ∷ t) ≡ words t
unfolding words split push
words-space t = refl

pub words-spaces : (k : ℕ) (t : Text) → words (replicate k space ++ t) ≡ words t
words-spaces zero t = refl
words-spaces (suc k) t = words-space (replicate k space ++ t) ∙ words-spaces k t

split-word : (w t : Text) → All IsPlain w → split (w ++ (space ∷ t)) ≡ (w, words t)
unfolding split words
split-word [] t h = refl
split-word (c ∷ w) t h = ground (arith, split-word w t h.1)

split-last : (w : Text) → All IsPlain w → split w ≡ (w, [])
unfolding split
split-last [] h = refl
split-last (c ∷ w) h = ground (arith, split-last w h.1)

-- A word, a space and the rest; and a word alone.
pub words-more :
    (c : ℕ) (w t : Text) → All IsPlain (c ∷ w) → words ((c ∷ w) ++ (space ∷ t)) ≡ (c ∷ w) ∷ words t
unfolding words push
words-more c w t h = ap (λ (r : Text × List Text). push r.0 r.1) (split-word (c ∷ w) t h)

pub words-last : (c : ℕ) (w : Text) → All IsPlain (c ∷ w) → words (c ∷ w) ≡ (c ∷ w) ∷ []
unfolding words push
words-last c w h = ap (λ (r : Text × List Text). push r.0 r.1) (split-last (c ∷ w) h)

pub words-blank : (k : ℕ) → words (replicate k space) ≡ []
unfolding words split push
words-blank zero = refl
words-blank (suc k) = words-blank k

pub plain-nonzero : (w : Text) → All IsPlain w → All (λ c. c ≢ 0) w
plain-nonzero [] h = tt
plain-nonzero (c ∷ w) h = (h.0.0, plain-nonzero w h.1)
