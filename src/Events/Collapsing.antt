-- ===== src/Events/Collapsing.antt =====
-- Which hazards come to the same deduplication key.
use field_pilot_ai_submissio.Common.{
  ◌≡◌, refl, sym, ap, ◌∙◌, ℕ, ◌*◌, Option, none, some, false, List, [], ◌∷◌, String, text_equality,
  ◌==◌, All, bind-some, if◌then◌else◌,
}
use field_pilot_ai_submissio.Common.Dict
use field_pilot_ai_submissio.Common.Dict.{Dict, get-set}
use field_pilot_ai_submissio.Common.Int.{pos}
use field_pilot_ai_submissio.Events.Value.{Value, is_truthy}
use field_pilot_ai_submissio.Events.Schema.{
  Event, event_type_value, or_text, str, first_truthy, discriminator_keys, discriminator, dedup_key,
}
use field_pilot_ai_submissio.Events.Bridge.{
  HazardType, HazardEvent, Box, event_type_of, with_box, set_missing, set_default, subject_of,
  payload_of, text_or, worker_of, hazard_to_event, confidence_of, optional_text, items_of,
}
use Prim.Native.String.{◌++◌}

-- The key is none that the bridge writes whatever the metadata holds.
abbrev Plain : String → Type 0
Plain k = (("message" == k) ≡ false) × ((("frame_index" == k) ≡ false) × (("bbox" == k) ≡ false))

get-with_box :
    (k : String) (box : Option Box) (d : Dict String Value)
    → ("bbox" == k) ≡ false
    → Dict.get k (with_box box d) ≡ Dict.get k d
get-with_box k none d other = refl
get-with_box k (some box) d other = get-set "bbox" k (Value.list (items_of box)) d ∙ rw other refl

get-marked :
    (k : String) (at said : Value) (meta : Dict String Value)
    → ("message" == k) ≡ false
    → ("frame_index" == k) ≡ false
    → Dict.get k (Dict.set "frame_index" at (Dict.set "message" said meta)) ≡ Dict.get k meta
get-marked k at said meta m f =
    get-set "frame_index" k at (Dict.set "message" said meta)
    ∙ rw f (get-set "message" k said meta ∙ rw m refl)

get-set_missing :
    (k j : String) (v : Value) (o : Option Value) (d e : Dict String Value)
    → Dict.get k d ≡ Dict.get k e
    → Dict.get k (set_missing o j v d) ≡ Dict.get k (set_missing o j v e)
get-set_missing k j v none d e p =
    get-set j k v d ∙ ap (λ o. if j == k then some v else o) p ∙ sym (get-set j k v e)
get-set_missing k j v (some w) d e p = p

get-set_default :
    (k j : String) (v : Value) (d e : Dict String Value)
    → Dict.get k d ≡ Dict.get k e
    → Dict.get j d ≡ Dict.get j e
    → Dict.get k (set_default j v d) ≡ Dict.get k (set_default j v e)
get-set_default k j v d e p q =
    ap (λ o. Dict.get k (set_missing o j v d)) q ∙ get-set_missing k j v (Dict.get j e) d e p

module _ (repr : Value → String) where
  first_truthy-same :
      (ks : List String) (d e : Dict String Value)
      → All (λ k. Dict.get k d ≡ Dict.get k e) ks
      → first_truthy repr ks d ≡ first_truthy repr ks e
  unfolding first_truthy
  first_truthy-same [] d e h = refl
  first_truthy-same (k ∷ ks) d e (p, h) =
      let first : Option Value → String → String =
        λ o rest. elim o [ none ↦ rest | some v ↦ if is_truthy v then str repr v else rest ] in
      ap (λ o. first o (first_truthy repr ks d)) p
      ∙ ap (λ r. first (Dict.get k e) r) (first_truthy-same ks d e h)

  module _ (show : ℕ → String) where
    -- The metadata with the key that the bridge adds.
    abbrev keyed : HazardType → Dict String Value → Dict String Value
    keyed kind meta =
        set_default "dedup_key" (Value.text (subject_of repr show (Dict.get "ppe" meta) kind)) meta

    get-payload_of :
        (k : String) (hazard : HazardEvent)
        → Plain k
        → Dict.get k (payload_of repr show hazard)
          ≡ Dict.get k (keyed hazard.hazard_type hazard.meta)
    get-payload_of k hazard (message, (frame, box)) =
        let v = Value.text (subject_of repr show (Dict.get "ppe" hazard.meta) hazard.hazard_type) in
        let said = Value.text hazard.message in
        let at = Value.num (pos (1000 * hazard.frame_index)) in
        get-with_box k hazard.bbox _ box
        ∙ get-set_default k "dedup_key" v _ hazard.meta
            (get-marked k at said hazard.meta message frame)
            (get-marked "dedup_key" at said hazard.meta refl refl)

    discriminator-payload_of :
        (hazard : HazardEvent)
        → discriminator repr (payload_of repr show hazard)
          ≡ discriminator repr (keyed hazard.hazard_type hazard.meta)
    unfolding discriminator
    discriminator-payload_of hazard =
        first_truthy-same (discriminator_keys repr) (payload_of repr show hazard)
          (keyed hazard.hazard_type hazard.meta)
          (
            get-payload_of "dedup_key" hazard (refl, (refl, refl)),
            (
              get-payload_of "subject" hazard (refl, (refl, refl)),
              (
                get-payload_of "element" hazard (refl, (refl, refl)),
                (
                  get-payload_of "ppe_item" hazard (refl, (refl, refl)),
                  (get-payload_of "defect" hazard (refl, (refl, refl)), tt),
                ),
              ),
            ),
          )

    -- The key of a hazard, without its message, box, frame, time and severity.
    abbrev key_of : Option String → HazardType → Option ℕ → Dict String Value → String
    key_of place kind track meta =
        event_type_value (event_type_of kind)
        ++ ":"
        ++ or_text (worker_of repr show track) "-"
        ++ ":"
        ++ or_text (text_or repr show some (Dict.get "source_zone" meta) place) "-"
        ++ ":"
        ++ discriminator repr (keyed kind meta)

    module _ (float : Value → Option ℕ) where
      dedup_key-hazard_to_event :
          (fresh camera : String) (place : Option String) (hazard : HazardEvent) (event : Event)
          → hazard_to_event repr show float fresh camera place hazard ≡ some event
          → dedup_key repr event ≡ key_of place hazard.hazard_type hazard.track_id hazard.meta
      unfolding hazard_to_event dedup_key
      dedup_key-hazard_to_event fresh camera place hazard event h =
          let (c, (_, q)) =
            bind-some (confidence_of repr show float (Dict.get "confidence" hazard.meta)) _ h in
          let (u, (_, r)) = bind-some (optional_text (Dict.get "image_url" hazard.meta)) _ q in
          let same = ap (λ o. elim o [ none ↦ event | some e ↦ e ]) r in
          ap (dedup_key repr) (sym same)
          ∙ ap
              (λ d.
                event_type_value (event_type_of hazard.hazard_type)
                ++ ":"
                ++ or_text (worker_of repr show hazard.track_id) "-"
                ++ ":"
                ++ or_text (text_or repr show some (Dict.get "source_zone" hazard.meta) place) "-"
                ++ ":"
                ++ d)
              (discriminator-payload_of hazard)

      -- Two hazards of the same type, track and metadata, bridged for the same zone, become events
      -- with the same deduplication key, whatever their messages, boxes, frames, times,
      -- severities, cameras and identifiers; provided that both become events.
      pub hazard_to_event-dedup_key :
          (fresh other : String)
          → (camera elsewhere : String) → (place : Option String) → (hazard again : HazardEvent)
          → (event second : Event) → hazard.hazard_type ≡ again.hazard_type
          → hazard.track_id ≡ again.track_id
          → hazard.meta ≡ again.meta
          → hazard_to_event repr show float fresh camera place hazard ≡ some event
          → hazard_to_event repr show float other elsewhere place again ≡ some second
          → dedup_key repr event ≡ dedup_key repr second
      hazard_to_event-dedup_key fresh other camera elsewhere place hazard again event second k t m h
            g =
          dedup_key-hazard_to_event fresh camera place hazard event h
          ∙ (λ i. key_of place (k i) (t i) (m i))
          ∙ sym (dedup_key-hazard_to_event other elsewhere place again second g)
