-- ===== src/Output/Tests.antt =====
-- Concrete templates.
use thingino_onvif.Base.{List, [], ◌∷◌, some, ◌≡◌, refl, Bytes, codes, length}
use thingino_onvif.Output.Measured.{reply-length}
use thingino_onvif.Output.{Parameter, reply}

abbrev template : Bytes
template = codes "<tds:Preset token=\"%TOKEN%\">\n    %NAME%\n</tds:Preset>\n"

abbrev parameters : List Parameter
parameters =
    (some (codes "%TOKEN%"), some (codes "PresetToken_7"))
    ∷ ((some (codes "%NAME%"), some (codes "Gate")) ∷ [])

filled :
    (reply (some template) parameters).body
    ≡ codes "<tds:Preset token=\"PresetToken_7\"> Gate</tds:Preset>"
unfolding reply
filled = refl

-- A value with the mark of a later parameter is replaced too.
filled_twice :
    (reply (some (codes "<a>%A%</a>\n")) (
      (some (codes "%A%"), some (codes "%B%"))
      ∷ ((some (codes "%B%"), some (codes "1")) ∷ []))).body
    ≡ codes "<a>1</a>"
unfolding reply
filled_twice = refl

reply-length_example :
    (reply (some template) parameters).content_length
    ≡ length (reply (some template) parameters).body
reply-length_example = reply-length (some template) parameters
