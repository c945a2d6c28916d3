-- ===== src/Output/Measured.antt =====
-- The length that `cat` of src/utils.c measures, and the text that it writes.
use thingino_onvif.Base.{
  List, [], ◌∷◌, ◌++◌, Option, none, some, ◌≡◌, refl, sym, ap, arith, ◌==◌, Bytes, length,
  length-append, append_assoc, append-nil, Bool-cases, inl, inr,
}
use thingino_onvif.Output.{
  Parameter, substitute_all, shown, counted, count_lines, show_lines, joined_pieces, reply,
  missing_template,
}
use thingino_onvif.Text.Lines.{trim}

pub joined_pieces-append :
    (ps qs : List Bytes) → joined_pieces (ps ++ qs) ≡ joined_pieces ps ++ joined_pieces qs
joined_pieces-append [] qs = refl
joined_pieces-append (p ∷ ps) qs = simp (joined_pieces-append ps qs, append_assoc)

counted-shown : (l : Bytes) → counted l ≡ length (joined_pieces (shown l))
unfolding counted shown
counted-shown [] = refl
counted-shown (c ∷ l) = elim (Bool-cases (c == b'<')) [
  | inl tag ↦ rw (tag, append-nil) (omega arith)
  | inr other ↦ rw (other, append-nil) (omega arith)
]

count_lines-show_lines :
    (pars : List Parameter) (lines : List Bytes)
    → count_lines pars lines ≡ length (joined_pieces (show_lines pars lines))
unfolding count_lines show_lines
count_lines-show_lines pars [] = refl
count_lines-show_lines pars (line ∷ lines) =
    let l = trim (substitute_all pars line) in
    omega (
      arith,
      counted-shown l,
      count_lines-show_lines pars lines,
      ap length (joined_pieces-append (shown l) (show_lines pars lines)),
      length-append (joined_pieces (shown l)) (joined_pieces (show_lines pars lines)),
    )

-- The Content-Length of a reply is the length of its body, whatever the template and its parameters
-- are, also where the template is not there.
pub reply-length :
    (template : Option Bytes) (pars : List Parameter)
    → (reply template pars).content_length ≡ length (reply template pars).body
unfolding reply
reply-length none pars = ap length (sym (append-nil missing_template))
reply-length (some text) pars = count_lines-show_lines pars _
