-- ===== src/Search/Patterns.antt =====
-- The pattern of a search.
use vethealth_backend.Base.{
  ℕ, ◌≡◌, refl, Bool, true, false, not, ◌&&◌, ◌||◌, [], ◌∷◌, ◌++◌, Text, truthy, arith, ◌==◌,
  if◌then◌else◌,
}
use vethealth_backend.Search.{starts_with, includes, escape, pattern_of}

abbrev any_rest : (Text → Bool) → Text → Bool
any_rest f [] = f []
any_rest f (c ∷ s) = f (c ∷ s) || any_rest f s

abbrev char_then : (ℕ → Bool) → (Text → Bool) → Text → Bool
char_then p f [] = false
char_then p f (c ∷ s) = if p c then f s else false

-- How SQL reads a pattern: `%` is any text, `_` any character, and a backslash takes the next one
-- by itself. Letters are compared as they are. The flag says that a backslash stands before.
abbrev pub like : (escaped : Bool) → (pattern s : Text) → Bool
like escaped [] s = not escaped && not (truthy s)
like true (c ∷ pattern) s = char_then (λ d. d == c) (like false pattern) s
like false (c ∷ pattern) s =
    let rest = like false pattern in
    let literal = like true pattern in
    if c == b'%'
    then any_rest rest s
    else if c == 92
    then literal s
    else char_then (λ d. c == b'_' || d == c) rest s

any_rest_empty : (s : Text) → any_rest (like false []) s ≡ true
any_rest_empty [] = refl
any_rest_empty (c ∷ s) = any_rest_empty s

like-escape : (q s : Text) → like false (escape q ++ (b'%' ∷ [])) s ≡ starts_with q s
like-escape [] s = any_rest_empty s
like-escape (c ∷ q) [] = ground arith
like-escape (c ∷ q) (d ∷ s) = ground (arith, like-escape q s)

any_rest-starts_with :
    (p : Text) (q s : Text)
    → ((t : Text) → like false p t ≡ starts_with q t)
    → any_rest (like false p) s ≡ includes q s
any_rest-starts_with p q [] h = h []
any_rest-starts_with p q (c ∷ s) h = ground (arith, h (c ∷ s), any_rest-starts_with p q s h)

-- The pattern of a query matches exactly the texts that include the query, also where the query has
-- percent signs, underscores or backslashes.
pub like-pattern_of : (q s : Text) → like false (pattern_of q) s ≡ includes q s
like-pattern_of q s = any_rest-starts_with (escape q ++ (b'%' ∷ [])) q s (like-escape q)
