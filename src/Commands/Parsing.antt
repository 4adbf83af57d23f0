-- ===== src/Commands/Parsing.antt =====
-- Lines of quoted parts, parsed by `CommandParser::parse` of crates/commands/src/lib.rs.
use rust_mine.Base.{
  ℕ, ◌≡◌, ◌≢◌, refl, sym, ap, ◌∙◌, Bool, true, false, List, [], ◌∷◌, ◌++◌, All, append_assoc,
  append-nil, arith,
}
use mathlib.Core.List.{reverse, reverse-append, reverse-reverse}
use rust_mine.Commands.Parser.{
  Scan, all_parts, push_part, scan_char, scan, trim_start, trim, label_and_args, parse_trimmed,
  parse,
}

-- A part between double quotes.
abbrev pub quoted : List ℕ → List ℕ
quoted part = 34 ∷ (part ++ 34 ∷ [])

-- Quoted parts with spaces between.
abbrev pub render_parts : List ℕ → List (List ℕ) → List ℕ
render_parts part [] = quoted part
render_parts part (next ∷ parts) = quoted part ++ 32 ∷ render_parts next parts

-- A line: a slash, the label and the arguments.
abbrev pub render : List ℕ → List (List ℕ) → List ℕ
render label args = 47 ∷ render_parts label args

-- Not empty, and without double quotes.
abbrev pub IsPart : List ℕ → Type 0
IsPart [] = ⊥
IsPart (c ∷ cs) = All (λ d. d ≢ 34) (c ∷ cs)

abbrev at : List (List ℕ) → List ℕ → Bool → Scan
at parts current in_quotes = record {
  parts = parts;
  current = current;
  in_quotes = in_quotes;
  quote_char = 34;
}

scan_char-inside :
    (c : ℕ) (parts : List (List ℕ)) (current : List ℕ)
    → c ≢ 34
    → scan_char c (at parts current true) ≡ at parts (current ++ c ∷ []) true
unfolding scan_char
scan_char-inside c parts current h = ground arith

scan-inside :
    (part rest : List ℕ) (parts : List (List ℕ)) (current : List ℕ)
    → All (λ d. d ≢ 34) part
    → scan (part ++ rest) (at parts current true) ≡ scan rest (at parts (current ++ part) true)
unfolding scan
scan-inside [] rest parts current h =
    ap (λ (t : List ℕ). scan rest (at parts t true)) (sym (append-nil current))
scan-inside (c ∷ part) rest parts current h =
    ap (scan (part ++ rest)) (scan_char-inside c parts current h.0)
    ∙ scan-inside part rest parts (current ++ c ∷ []) h.1
    ∙ ap (λ (t : List ℕ). scan rest (at parts t true)) (append_assoc current (c ∷ []) part)

IsPart-All : (part : List ℕ) → IsPart part → All (λ d. d ≢ 34) part
IsPart-All [] h = tt
IsPart-All (c ∷ cs) h = h

scan-quoted :
    (part rest : List ℕ) (parts : List (List ℕ))
    → IsPart part
    → scan (quoted part ++ rest) (at parts [] false) ≡ scan rest (at parts part false)
unfolding scan scan_char
scan-quoted part rest parts h =
    ap (λ (t : List ℕ). scan t (at parts [] true)) (append_assoc part (34 ∷ []) rest)
    ∙ scan-inside part (34 ∷ rest) parts [] (IsPart-All part h)

push_part-IsPart :
    (parts : List (List ℕ)) (part : List ℕ)
    → IsPart part
    → push_part parts part ≡ parts ++ part ∷ []
push_part-IsPart parts [] h = absurd h
push_part-IsPart parts (c ∷ cs) h = refl

scan-render_parts :
    (part : List ℕ) (rest : List (List ℕ)) (parts : List (List ℕ))
    → All IsPart (part ∷ rest)
    → all_parts (scan (render_parts part rest) (at parts [] false)) ≡ parts ++ part ∷ rest
unfolding scan scan_char
scan-render_parts part [] parts h =
    ap (λ (t : List ℕ). all_parts (scan t (at parts [] false))) (sym (append-nil (quoted part)))
    ∙ ap all_parts (scan-quoted part [] parts h.0)
    ∙ push_part-IsPart parts part h.0
scan-render_parts part (next ∷ rest) parts h =
    ap all_parts (scan-quoted part (32 ∷ render_parts next rest) parts h.0)
    ∙ scan-render_parts next rest (push_part parts part) h.1
    ∙ ap (λ t. t ++ next ∷ rest) (push_part-IsPart parts part h.0)
    ∙ append_assoc parts (part ∷ []) (next ∷ rest)

-- A line that ends with a quote has nothing to trim.
trim-line : (xs : List ℕ) → trim (47 ∷ (xs ++ 34 ∷ [])) ≡ 47 ∷ (xs ++ 34 ∷ [])
unfolding trim
trim-line xs =
    let turned : reverse (47 ∷ (xs ++ 34 ∷ [])) ≡ 34 ∷ reverse (47 ∷ xs) =
      reverse-append (47 ∷ xs) (34 ∷ []) in
    ap (λ (t : List ℕ). reverse (trim_start t)) turned
    ∙ ap reverse (sym turned)
    ∙ reverse-reverse (47 ∷ (xs ++ 34 ∷ []))

-- What stands in front of the last quote of a line.
body : List ℕ → List (List ℕ) → List ℕ
body part [] = 34 ∷ part
body part (next ∷ parts) = quoted part ++ 32 ∷ body next parts

render_parts-body :
    (part : List ℕ) (parts : List (List ℕ)) → render_parts part parts ≡ body part parts ++ 34 ∷ []
unfolding body
render_parts-body part [] = refl
render_parts-body part (next ∷ parts) =
    ap (λ (t : List ℕ). quoted part ++ 32 ∷ t) (render_parts-body next parts)
    ∙ sym (append_assoc (quoted part) (32 ∷ body next parts) (34 ∷ []))

-- A line of a slash, a label and arguments, each in double quotes, not empty and without double
-- quotes, with spaces between, is parsed to that label and those arguments.
pub parse-render :
    (label : List ℕ) (args : List (List ℕ))
    → All IsPart (label ∷ args)
    → parse (render label args) ≡ (label, args)
unfolding parse
parse-render label args h =
    let line = render_parts-body label args in
    let kept : trim (render label args) ≡ render label args =
      ap (λ (t : List ℕ). trim (47 ∷ t)) line
      ∙ trim-line (body label args)
      ∙ ap (λ (t : List ℕ). 47 ∷ t) (sym line) in
    ap parse_trimmed kept ∙ ap label_and_args (scan-render_parts label args [] h)
