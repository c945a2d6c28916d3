-- ===== src/Imaging/Presets/Chosen.antt =====
-- What SetCurrentPreset of src/imaging_service.c leaves behind.
use thingino_onvif.Base.{
  ℕ, ◌<◌, Bool, true, false, [], Option, some, Bytes, ◌≡◌, get_elem?, set, codes, length,
}
use thingino_onvif.Xml.{Document, get_element}
use thingino_onvif.Imaging.{
  Floats, PresetEntry, ImagingEntry, Camera, filled, find_imaging_entry, command_size, or_text, ran,
  source_token,
}
use thingino_onvif.Imaging.Ends.{Ends}
use thingino_onvif.Imaging.Presets.{set_current_preset, preset_template, name_of, type_of}
use thingino_onvif.Imaging.Presets.Current.{IsFirstPreset}

module _ (f : Floats) (w : Camera f.Float) where
  open f use {Float, format_texts}

  -- What is printed of a template for a preset.
  abbrev pub command_text : Bytes → PresetEntry → Bytes
  command_text template p =
      format_texts template (or_text p.token []) (name_of p (or_text p.token [])) (type_of p)

  -- What is known behind the command: where it was built, it was run.
  abbrev Built : Option Bytes → PresetEntry → Bool → Camera Float → Type 0
  Built o p false v = v ≡ w
  Built o p true v =
      (template : Bytes) × (o ≡ some template)
      × (length (command_text template p) < command_size)
      × (v ≡ record w { commands = ran (filled (some (command_text template p))) w.commands })

  module _ (i : ℕ) (e : ImagingEntry Float) (token_element : Option Bytes) where
    -- The command of the first preset with the token was run, and the source notes that preset.
    abbrev pub Chose : Camera Float → Type 0
    Chose v =
        (token : Bytes) × (k : ℕ) × (p : PresetEntry) × (template : Bytes) × (filled token_element
          ≡ some token)
        × IsFirstPreset token k e.presets p
        × (preset_template e p ≡ some template)
        × (length (command_text template p) < command_size)
        × (v ≡ record w {
          imaging = set w.imaging i (set_current_preset p.token e);
          commands = ran (filled (some (command_text template p))) w.commands;
        })

  module _ (doc : Document) where
    -- The source that the request names, and what was chosen there.
    abbrev pub NamedChose : Camera Float → Type 0
    NamedChose v =
        (i : ℕ) × (e : ImagingEntry Float) × (find_imaging_entry (source_token doc) w.imaging
          ≡ some i)
        × (get_elem? w.imaging i ≡ some e)
        × Chose i e (get_element doc (codes "PresetToken") (codes "Body")) v
