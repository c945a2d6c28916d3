-- ===== src/Output.antt =====
-- The output of a reply: `cat`, which fills a template, and the buffer that keeps a copy for the log, of
-- src/utils.c.
pub mod Measured
pub mod Captured
pub mod Fill
mod Tests
use thingino_onvif.Base.{
  ℕ, zero, suc, ◌+◌, ◌-◌, Bool, true, false, ◌||◌, List, [], ◌∷◌, ◌++◌, Option, none, some, ◌==◌,
  ltb, leb, if◌then◌else◌, Bytes, codes, length, take, drop, ◌≡◌, refl,
}
use thingino_onvif.Text.Lines.{fgets_lines, trim}
use thingino_onvif.Text.Topic.{starts_with}

abbrev pub max_cat_len : ℕ
max_cat_len = 2048

-- A parameter of a template: what is looked for, and what takes its place; either may be a null pointer.
abbrev pub Parameter : Type 0
Parameter = Option Bytes × Option Bytes

-- What stands before the first such place, and behind it.
unfoldable pub split_at : Bytes → Bytes → Bytes → Option (Bytes × Bytes)
unfolding starts_with
split_at needle cur [] = if starts_with needle [] then some (cur, []) else none
split_at needle cur (c ∷ s) =
    let later = split_at needle (cur ++ c ∷ []) s in
    if starts_with needle (c ∷ s) then some (cur, drop (length needle) (c ∷ s)) else later

-- A replacement that leaves nothing is not taken.
abbrev pub or_line : Bytes → Bytes → Bytes
or_line line [] = line
or_line line (c ∷ new_line) = c ∷ new_line

-- The first place of a parameter in a line is replaced, if the result fits.
unfoldable pub substitute : Bytes → Bytes → Bytes → Bytes
unfolding split_at
substitute par_to_find par_to_sub line = elim (split_at par_to_find [] line) [
  | none ↦ line
  | some (prefix, suffix) ↦
      if ltb (length prefix + length par_to_sub + length suffix) (max_cat_len - 1)
      then or_line line (prefix ++ (par_to_sub ++ suffix))
      else line
]

unfoldable pub substitute_all : List Parameter → Bytes → Bytes
unfolding substitute
substitute_all [] line = line
substitute_all ((some par_to_find, some par_to_sub) ∷ pars) line =
    substitute_all pars (substitute par_to_find par_to_sub line)
substitute_all ((none, par_to_sub) ∷ pars) line = substitute_all pars line
substitute_all ((some par_to_find, none) ∷ pars) line = substitute_all pars line

-- What is written of a line: a space in front, unless it begins with a tag.
unfoldable pub shown : Bytes → List Bytes
shown [] = []
shown (c ∷ l) = if c == b'<' then (c ∷ l) ∷ [] else codes " " ∷ ((c ∷ l) ∷ [])

-- What the line adds to the number that `cat` returns.
unfoldable pub counted : Bytes → ℕ
counted [] = 0
counted (c ∷ l) = (if c == b'<' then 0 else 1) + length (c ∷ l)

unfoldable pub count_lines : List Parameter → List Bytes → ℕ
unfolding substitute_all counted trim
count_lines pars [] = 0
count_lines pars (line ∷ lines) = counted (trim (substitute_all pars line)) + count_lines pars lines

unfoldable pub show_lines : List Parameter → List Bytes → List Bytes
unfolding substitute_all shown trim
show_lines pars [] = []
show_lines pars (line ∷ lines) = shown (trim (substitute_all pars line)) ++ show_lines pars lines

-- The answer to a template that is not there.
abbrev pub missing_template : Bytes
missing_template =
    codes "<?xml version=\"1.0\" ?>"
    ++ (codes "<soapenv:Envelope xmlns:soapenv=\"http://www.w3.org/2003/05/soap-envelope\""
        ++ (codes " xmlns:ter=\"http://www.onvif.org/ver10/error\""
            ++ (codes
                  " xmlns:xs=\"http://www.w3.org/2000/10/XMLSchema\"><soapenv:Body><soapenv:Fault>"
                ++ (codes
                      "<soapenv:Code><soapenv:Value>env:Receiver</soapenv:Value><soapenv:Subcode>"
                    ++ (codes
                          "<soapenv:Value>ter:ActionNotSupported</soapenv:Value></soapenv:Subcode>"
                        ++ (codes "</soapenv:Code><soapenv:Reason><soapenv:Text xml:lang=\"en\">"
                            ++ (codes
                                  "Optional Action Not Implemented</soapenv:Text></soapenv:Reason>"
                                ++ (codes
                                      "<soapenv:Node>http://www.w3.org/2003/05/soap-envelope/node/ultimateReceiver"
                                    ++ (codes "</soapenv:Node>"
                                        ++ (codes
                                              "<soapenv:Role>http://www.w3.org/2003/05/soap-envelope/role/ultimateReceiver"
                                            ++ (codes
                                                  "</soapenv:Role><soapenv:Detail><soapenv:Text>"
                                                ++ (codes
                                                      "The requested XML template is not available on this device"
                                                    ++ (codes
                                                          "</soapenv:Text></soapenv:Detail></soapenv:Fault></soapenv:Body>"
                                                        ++ codes
                                                            "</soapenv:Envelope>\r\n")))))))))))))

-- Where `cat` writes: nowhere when it only measures.
pub data Target : Type 0 where
  nowhere : Target
  to_stdout : Target

-- What `cat` returns, what it writes, piece by piece, and whether that is the answer to a missing
-- template.
pub record Written : Type 0 where
  pub ret : ℕ
  pub pieces : List Bytes
  pub is_soap_fault : Bool

abbrev written_to : Target → List Bytes → List Bytes
written_to nowhere pieces = []
written_to to_stdout pieces = pieces

-- The template is `none` where the file cannot be opened.
unfoldable pub cat : Target → Option Bytes → List Parameter → Written
unfolding count_lines show_lines fgets_lines
cat out none pars = record {
  ret = length missing_template;
  pieces = written_to out (missing_template ∷ []);
  is_soap_fault = true;
}
cat out (some text) pars =
    let lines = fgets_lines (max_cat_len - 2) (max_cat_len - 2) text [] in
    record {
      ret = count_lines pars lines;
      pieces = written_to out (show_lines pars lines);
      is_soap_fault = false;
    }

abbrev pub joined_pieces : List Bytes → Bytes
joined_pieces [] = []
joined_pieces (p ∷ ps) = p ++ joined_pieces ps

-- The copy for the log, in an array of `size` bytes, which are 64 KB in the source.
unfoldable pub response_buffer_append : ℕ → Bytes → Bytes → Bytes
response_buffer_append size buffer bytes =
    if leb size (length buffer)
    then []
    else if ltb (length buffer + length bytes) (size - 1)
    then buffer ++ bytes
    else buffer ++ take (size - length buffer - 1) bytes

unfoldable pub capture : ℕ → Bytes → List Bytes → Bytes
unfolding response_buffer_append
capture size buffer [] = buffer
capture size buffer (p ∷ ps) = capture size (response_buffer_append size buffer p) ps

-- A handler measures its template, prints the headers, and writes it.
pub record Http : Type 0 where
  pub is_error : Bool
  pub content_length : ℕ
  pub body : Bytes

unfoldable pub reply : Option Bytes → List Parameter → Http
unfolding cat
reply template pars =
    let measured = cat nowhere template pars in
    record {
      is_error = measured.is_soap_fault;
      content_length = measured.ret;
      body = joined_pieces (cat to_stdout template pars).pieces;
    }
