-- ===== src/Go/Text/Fields.antt =====
-- `strings.Fields` of a text that `strings.Join` made.
use fund_dashboard.Prelude.{ℕ, ◌≡◌, false, List, [], ◌∷◌, ◌++◌, arith, refl, ap, ◌∙◌, All, Bytes}
use fund_dashboard.Go.Text.{is_space, in_word, fields, join, trim_space, trim_left, trim_right}

-- A word: it is not empty and has no white space.
abbrev pub IsWord : Bytes → Type 0
IsWord [] = ⊥
IsWord (c ∷ s) = (is_space c ≡ false) × All (λ d. is_space d ≡ false) s

fields-word :
    (c : ℕ) (w : Bytes) (s : Bytes)
    → is_space c ≡ false
    → All (λ d. is_space d ≡ false) w
    → fields (c ∷ w ++ b' ' ∷ s) ≡ (c ∷ w) ∷ fields s
unfolding fields
fields-word c [] s h a = ground arith
fields-word c (d ∷ w) s h a = ground (arith, fields-word d w s a.0 a.1)

fields-last :
    (c : ℕ) (w : Bytes)
    → is_space c ≡ false
    → All (λ d. is_space d ≡ false) w
    → fields (c ∷ w) ≡ (c ∷ w) ∷ []
unfolding fields
fields-last c [] h a = ground arith
fields-last c (d ∷ w) h a = ground (arith, fields-last d w a.0 a.1)

pub fields-join : (ws : List Bytes) → All IsWord ws → fields (join b' ' ws) ≡ ws
unfolding join
fields-join [] h = unfold fields in refl
fields-join ([] ∷ ws) h = absurd h.0
fields-join ((c ∷ w) ∷ []) h = fields-last c w h.0.0 h.0.1
fields-join ((c ∷ w) ∷ v ∷ ws) h =
    fields-word c w (join b' ' (v ∷ ws)) h.0.0 h.0.1
    ∙ ap (λ r. (c ∷ w) ∷ r) (fields-join (v ∷ ws) h.1)

fields-trim_left : (s : Bytes) → fields (trim_left s) ≡ fields s
unfolding fields trim_left
fields-trim_left [] = refl
fields-trim_left (c ∷ s) = ground (arith, fields-trim_left s)

in_word-trim_right : (s : Bytes) → in_word (trim_right s) ≡ in_word s
unfolding trim_right
in_word-trim_right [] = refl
in_word-trim_right (c ∷ s) = ground arith

fields-trim_right : (s : Bytes) → fields (trim_right s) ≡ fields s
unfolding fields trim_right
fields-trim_right [] = refl
fields-trim_right (c ∷ s) = ground (arith, fields-trim_right s, in_word-trim_right s)

pub fields-trim_space : (s : Bytes) → fields (trim_space s) ≡ fields s
unfolding trim_space
fields-trim_space s = fields-trim_right (trim_left s) ∙ fields-trim_left s
