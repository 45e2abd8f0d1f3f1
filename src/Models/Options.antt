-- ===== src/Models/Options.antt =====
-- fieldpilot/models_registry/registry.py: the registered checkpoints. A size is in thousandths of a
-- megabyte.
use field_pilot_ai_submissio.Common.{ℕ, String, Option, none, some, [], ◌∷◌}
use field_pilot_ai_submissio.Common.Dict.{Dict}

-- What the registry says of a checkpoint.
pub record Entry : Type 0 where
  pub weights : String
  pub label : String
  pub notes : String
  pub capability : String
  pub license : String
  pub size_mb : Option ℕ
  pub source : Option String
  pub url : Option String
  pub sha256 : Option String
  pub ultralytics_name : Option String

-- An entry that pins no URL.
abbrev local_only : String → String → String → String → String → Option ℕ → Option String → Entry
local_only weights label notes capability license size hosted = record {
  weights = weights;
  label = label;
  notes = notes;
  capability = capability;
  license = license;
  size_mb = size;
  source = none;
  url = none;
  sha256 = none;
  ultralytics_name = hosted;
}

abbrev pub ppe_css : Entry
ppe_css = record {
  weights = "ppe_css.pt";
  label = "Construction-Site Safety Nano · 10 classes";
  notes =
      "The default in config.yaml. Hardhat, Mask, NO-Hardhat, NO-Mask, NO-Safety Vest, Person, Safety Cone, Safety Vest, machinery, vehicle — the exact label space PPEChecker._categorize was written against.";
  capability = "ppe";
  license = "MIT";
  size_mb = some 6000;
  source = some "https://huggingface.co/Hansung-Cho/yolov8-ppe-detection";
  url =
      some
        "https://huggingface.co/Hansung-Cho/yolov8-ppe-detection/resolve/ac0027bd38bc619d5ce4f52b4cc01beb87d8b958/best.pt";
  sha256 = some "2419700bbe3b8d38f9000655d9cf952a4bc93ef6c143baf8b49a0abde5d0760f";
  ultralytics_name = none;
}

abbrev pub model_options : Dict String Entry
model_options =
    ("ppe_css", ppe_css)
    ∷ (
      "ppe_construction_n",
      record {
        weights = "ppe_construction_n.pt";
        label = "PPE Construction Nano · 17 classes";
        notes = "Fast PPE model for helmets, vests, gloves, shoes, people, and site equipment.";
        capability = "ppe";
        license = "MIT";
        size_mb = some 6000;
        source = some "https://huggingface.co/baskarmother/yolov8-ppe-construction";
        url =
            some
              "https://huggingface.co/baskarmother/yolov8-ppe-construction/resolve/3213ed51de90cbc76e577e6944e84f7c74343526/best.pt";
        sha256 = some "8714b4b2bbde95b3a07dcdbe873995e34742b5ce628464a4da232721d4691ffe";
        ultralytics_name = none;
      },
    )
    ∷ (
      "ppe_helmet_vest_n",
      record {
        weights = "ppe_helmet_vest_n.pt";
        label = "PPE Helmet + Vest Nano · 5 classes";
        notes =
            "YOLO11 model specialized for hats, missing hats, vests, missing vests, and people.";
        capability = "ppe";
        license = "Apache-2.0";
        size_mb = some 5100;
        source = some "https://huggingface.co/wesjos/Yolo-hard-hat-safety-vest";
        url =
            some
              "https://huggingface.co/wesjos/Yolo-hard-hat-safety-vest/resolve/44b1c59aa64f4039ef732c82563a9b30abdc991a/yolo11n_safety.pt";
        sha256 = some "93c8ddf095891486590430edd3451525355e9b76b0be73543b5aa87435ce9a6e";
        ultralytics_name = none;
      },
    )
    ∷ (
      "ppe_safetyvision_s",
      record {
        weights = "ppe_safetyvision_s.pt";
        label = "SafetyVision PPE Small · 13 classes";
        notes = "Balanced YOLOv8s model for positive and missing PPE, people, masks, and falls.";
        capability = "ppe";
        license = "AGPL-3.0";
        size_mb = some 21500;
        source = some "https://huggingface.co/ayushgupta7777/safetyvision-yolov8";
        url =
            some
              "https://huggingface.co/ayushgupta7777/safetyvision-yolov8/resolve/56a71758b55f0e9f2b4b2d6b51a779a1f882da10/v2/best.pt";
        sha256 = some "7863be4700dcf831579d610bb3fe3668fb29fb22ab17ca027b55e94b88bfff7a";
        ultralytics_name = none;
      },
    )
    ∷ (
      "ppe_vyra_m",
      record {
        weights = "ppe_vyra_m.pt";
        label = "Vyra PPE Medium · 14 classes";
        notes =
            "Higher-capacity YOLOv8m model for helmets, vests, gloves, goggles, masks, and falls.";
        capability = "ppe";
        license = "CC-BY-4.0";
        size_mb = some 49700;
        source = some "https://huggingface.co/Hexmon/vyra-yolo-ppe-detection";
        url =
            some
              "https://huggingface.co/Hexmon/vyra-yolo-ppe-detection/resolve/08895b33d95d2587423ebe4f7c1b9c41beebd642/best.pt";
        sha256 = some "2b33d4d016f9751c5a25f4a72ce050e0a7e4e140b11c1669978d7154003a4f61";
        ultralytics_name = none;
      },
    )
    ∷ (
      "yolo26n",
      local_only "yolo26n.pt" "YOLO26 Nano"
          "Fast general detector — people only, no PPE classes. Pose remains enabled." "person"
          "AGPL-3.0" none (some "yolo26n.pt"),
    )
    ∷ (
      "yolo26s",
      local_only "yolo26s.pt" "YOLO26 Small"
          "Higher-accuracy general detector with slower CPU inference. People only." "person"
          "AGPL-3.0" none (some "yolo26s.pt"),
    )
    ∷ (
      "yolo11n",
      local_only "yolo11n.pt" "YOLO11 Nano"
          "Stable fallback when YOLO26 weights are unavailable. People only." "person" "AGPL-3.0"
          (some 5400) (some "yolo11n.pt"),
    )
    ∷ (
      "custom",
      local_only "custom_ppe.pt" "Custom PPE Model"
          "Your own fine-tune, dropped in as models/custom_ppe.pt. Never downloaded." "ppe"
          "User supplied" none none,
    )
    ∷ []
