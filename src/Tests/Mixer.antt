-- ===== src/Tests/Mixer.antt =====
-- The theorems about the mixer's paths at small documents.
use mathlib.Core.Option.{some-injective}
use midas_util.Base.{
  sym, ◌<◌, ◌≤◌, ◌≡◌, refl, none, some, List, [], ◌∷◌, Bytes, Option, codes, ok, length, arith,
}
use midas_util.Base.Ints.{nonzero}
use midas_util.CString.{str_eq, atoi}
use midas_util.Audio.{MixerConfig, XmlEvent, start, end, parse_config, main}
use midas_util.Audio.Document.{DefaultPath, default_ctls_of, IsRoot, Device, document, widgets}
use midas_util.Audio.Devices.{Distinct, settings_of, parse_config-document}
use midas_util.Audio.Apply.{calls, path_chosen, outcome, main-document}
use midas_util.Audio.Parse.{parse_config_safe}
use midas_util.Audio.Pointers.{main_at}
use midas_util.Tests.Supply.{addresses, addresses-IsSupply}
use midas_util.Audio.Pointers.Program.{main_at-main}

abbrev name_is : Bytes → List (Bytes × Bytes)
name_is n = (codes "name", n) ∷ []

-- a control in a path, and one outside of all
abbrev one_path : List XmlEvent
one_path =
    start (codes "mixer") []
    ∷ start (codes "device") (name_is (codes "speaker"))
    ∷ start (codes "path") (name_is (codes "on"))
    ∷ start (codes "ctl") ((codes "name", codes "Volume") ∷ (codes "val", codes "3") ∷ [])
    ∷ end (codes "path")
    ∷ end (codes "device")
    ∷ start (codes "ctl") ((codes "name", codes "Volume") ∷ (codes "val", codes "0") ∷ [])
    ∷ end (codes "mixer")
    ∷ []

parse_config_safe_example : (cfg : Option MixerConfig) × (parse_config (some one_path) ≡ ok cfg)
parse_config_safe_example = parse_config_safe (some one_path)

-- Two devices; the second turns a switch off in its path `on`.
abbrev two_devices : List Device
two_devices =
    record {
      name = codes "speaker";
      on = (codes "Volume", codes "3") ∷ [];
      off = (codes "Volume", codes "0") ∷ [];
    }
    ∷ record { name = codes "headset"; on = (codes "Switch", codes "Off") ∷ []; off = [] }
    ∷ []

-- A path without a name, as in audio/sample.xml, and one with a name.
abbrev two_defaults : List DefaultPath
two_defaults =
    (none, (codes "Volume", codes "1") ∷ [])
    ∷ (some (codes "first"), (codes "Switch", codes "On") ∷ [])
    ∷ []

tinyhal-IsRoot : IsRoot (codes "tinyhal")
unfolding str_eq
tinyhal-IsRoot = record { no_path = refl; no_device = refl; no_ctl = refl }

two_devices-Distinct : Distinct two_devices
unfolding str_eq
two_devices-Distinct = ((refl, tt), (tt, tt))

parse_config-document_example :
    parse_config (some (document (codes "tinyhal") two_defaults two_devices))
    ≡ ok (
        some (record {
          settings = settings_of two_devices;
          default_widgets = widgets (default_ctls_of two_defaults);
        }))
parse_config-document_example =
    parse_config-document (codes "tinyhal") two_defaults two_devices tinyhal-IsRoot
      two_devices-Distinct

main-document_example :
    main
      (λ name. some 2)
      (λ file. some (document (codes "tinyhal") two_defaults two_devices))
      (codes "midas.xml" ∷ codes "speaker" ∷ codes "1" ∷ [])
    ≡ ok (
        outcome
          (calls (λ name. some 2) (default_ctls_of two_defaults))
          (calls
            (λ name. some 2)
            (path_chosen two_devices (codes "speaker") (nonzero (atoi (codes "1")))))
          (path_chosen two_devices (codes "speaker") (nonzero (atoi (codes "1")))))
main-document_example =
    main-document (λ name. some 2)
      (λ file. some (document (codes "tinyhal") two_defaults two_devices)) (codes "tinyhal")
      two_defaults two_devices (codes "midas.xml") (codes "speaker") (codes "1") [] refl
      tinyhal-IsRoot two_devices-Distinct

abbrev path_args : List Bytes
path_args = codes "midas.xml" ∷ codes "speaker" ∷ codes "1" ∷ []

one_path_fits :
    (file : Bytes) (more : List Bytes) (es : List XmlEvent)
    → path_args ≡ file ∷ more
    → some one_path ≡ some es
    → (length es ≤ length (addresses 9)) × (length es < 10)
one_path_fits file more es a e = rw (sym (some-injective _ _ e)) (omega arith, omega arith)

main_at-main_example :
    main_at 10 (addresses 9) (λ name. some 2) (λ file. some one_path) path_args
    ≡ main (λ name. some 2) (λ file. some one_path) path_args
main_at-main_example =
    main_at-main 10 (addresses 9) (λ name. some 2) (λ file. some one_path) (addresses-IsSupply 9)
      path_args one_path_fits
