-- ===== src/Imaging/Settings/Filter.antt =====
-- The cut filter in SetImagingSettings of src/imaging_service.c.
use thingino_onvif.Base.{ℕ, Bool, true, false, not, Option, none, some, if◌then◌else◌, Bytes, codes}
use thingino_onvif.Text.Query.{equal_ignoring_case}
use thingino_onvif.Imaging.{
  IrcutMode, unspecified, on, off, auto, ImagingEntry, ImagingFault, fault, Handler, ◌>>◌, return,
  unless, store, execute_backend_command,
}

unfoldable pub ircut_mode_from_string : Bytes → IrcutMode
unfolding equal_ignoring_case
ircut_mode_from_string value =
    if equal_ignoring_case value (codes "ON")
    then on
    else if equal_ignoring_case value (codes "OFF")
    then off
    else if equal_ignoring_case value (codes "AUTO")
    then auto
    else unspecified

abbrev pub bad_ircut : Bool → ImagingFault
bad_ircut true =
    fault "Sender" "ter:InvalidArgVal" "ter:ConfigModify" "Unsupported IrCutFilter"
      "IrCutFilter value must be On, Off or Auto"
bad_ircut false =
    fault "Sender" "ter:InvalidArgVal" "ter:ConfigModify" "Unsupported IrCutFilter"
      "Requested IrCutFilter mode is not supported by this source"

abbrev pub is_unspecified : IrcutMode → Bool
is_unspecified unspecified = true
is_unspecified on = false
is_unspecified off = false
is_unspecified auto = false

unfoldable pub supports : {Float : Type 0} → ImagingEntry Float → IrcutMode → Bool
supports e unspecified = true
supports e on = e.supports_ircut_on
supports e off = e.supports_ircut_off
supports e auto = e.supports_ircut_auto

unfoldable pub ircut_command : {Float : Type 0} → ImagingEntry Float → IrcutMode → Option Bytes
ircut_command e unspecified = none
ircut_command e on = e.cmd_ircut_on
ircut_command e off = e.cmd_ircut_off
ircut_command e auto = e.cmd_ircut_auto

unfoldable pub same_mode : IrcutMode → IrcutMode → Bool
same_mode unspecified unspecified = true
same_mode on on = true
same_mode off off = true
same_mode auto auto = true
same_mode _ _ = false

-- The cut filter, where the request names it.
-- A mode that the source has already is left alone.
abbrev pub change_mode :
    {Float : Type 0} → ℕ → ImagingEntry Float → IrcutMode → Handler Float (Unit {0})
change_mode i e mode =
    if same_mode mode e.ircut_mode
    then return tt
    else (execute_backend_command (ircut_command e mode)
        >> store i (record e { ircut_mode = mode }))

unfoldable pub set_ircut :
    {Float : Type 0} → ℕ → ImagingEntry Float → Option Bytes → Handler Float (Unit {0})
set_ircut i e none = return tt
set_ircut i e (some value) = do
  let requested = ircut_mode_from_string value
  unless (is_unspecified requested) (bad_ircut true)
  unless (not (supports e requested)) (bad_ircut false)
  change_mode i e requested
