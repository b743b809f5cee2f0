-- ===== src/Http/Chunks/Wire.antt =====
-- The text of chunks on the wire.
use study_libevent.Prelude.{ℕ, ◌≡◌, refl, ap, ◌∙◌, List, [], ◌∷◌, ◌++◌, append_assoc, length}
use study_libevent.Http.{print_hex}

-- A chunk on the wire, with `rest` behind it.
abbrev pub framed : List ℕ → List ℕ → List ℕ
framed d rest = print_hex 8 (length d) ++ 13 ∷ 10 ∷ (d ++ 13 ∷ 10 ∷ rest)

-- The chunks and the last chunk, with the empty line that ends the body.
abbrev pub wire : List (List ℕ) → List ℕ
wire [] = 48 ∷ 13 ∷ 10 ∷ 13 ∷ 10 ∷ []
wire (d ∷ ds) = framed d (wire ds)

-- The chunks alone.
abbrev pub frames : List (List ℕ) → List ℕ
frames [] = []
frames (d ∷ ds) = framed d (frames ds)

pub framed_append : (d xs ys : List ℕ) → framed d xs ++ ys ≡ framed d (xs ++ ys)
framed_append d xs ys =
    append_assoc (print_hex 8 (length d)) (13 ∷ 10 ∷ (d ++ 13 ∷ 10 ∷ xs)) ys
    ∙ ap (λ t. print_hex 8 (length d) ++ 13 ∷ 10 ∷ t) (append_assoc d (13 ∷ 10 ∷ xs) ys)

pub frames_end : (ds : List (List ℕ)) → frames ds ++ wire [] ≡ wire ds
frames_end [] = refl
frames_end (d ∷ ds) = framed_append d (frames ds) (wire []) ∙ ap (framed d) (frames_end ds)
