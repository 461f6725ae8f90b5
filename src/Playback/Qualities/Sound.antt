-- ===== src/Playback/Qualities/Sound.antt =====
-- qualities.go: the source, the display and the decoder behind an offered tier.
use zombiebox_gateway_core.Base.{
  ℕ, ◌≤◌, ◌<◌, ◌≡◌, refl, sym, subst, ◌⊎◌, inl, inr, String, Bool, true, false, not, ◌&&◌, ◌||◌,
  some, List, [], ◌∷◌, map, arith, All, All-Mem, All-map-keep, Memᴰ, keep, ◌==◌, str_eq,
  if◌then◌else◌, Bool-cases, Option-cases,
}
use zombiebox_gateway_core.Domain.{
  Capabilities, Stream, Metadata, Source, Device, QualityOption, QualityInventory,
}
use zombiebox_gateway_core.Playback.Runtime.{Runtime}
use zombiebox_gateway_core.Playback.Picture.{exceeds-false}
use zombiebox_gateway_core.Playback.Probe.{week}
use zombiebox_gateway_core.Playback.Planner.Evidence.{extended_video_candidate-Decodes}
use zombiebox_gateway_core.Playback.Planner.Codecs.{is_extended}
use zombiebox_gateway_core.Playback.Qualities.Tiers.{
  QualityTier, standard_tiers, find_video_stream, can_decode_h264_tier, max_supported_output_height,
  native_video, is_native_direct_play_verified,
}
use zombiebox_gateway_core.Playback.Qualities.Options.{
  auto_option, auto_inventory, option_of, has_variant, has_variants, height_of, Offer, offers,
  offer_of, inventory_of, normalize_quality, qualities,
}
use zombiebox_gateway_core.Playback.Qualities.Evidence.{
  Covers, Covers-of_Decodes, Covers-mono, nominal, can_decode_h264_tier-Covers, classify-reaches,
}

abbrev IsStandard : ℕ → Type 0
IsStandard h = (h ≡ 1080) ⊎ (h ≡ 720) ⊎ (h ≡ 480) ⊎ (h ≤ 360)

module _ ⦃rt : Runtime⦄ (caps : Capabilities) (now : ℕ) (wk : week ≤ now) where
  native_video-Covers :
      (m : Metadata) (max_height : ℕ) (v : Stream)
      → native_video caps now m max_height (some v) ≡ true
      → IsStandard v.height ⊎ (1080 < v.height)
      → Covers caps now v.height
  native_video-Covers m max_height v h s = elim (Bool-cases (is_extended v)) [
    | inl e ↦
        Covers-of_Decodes caps now v
          (extended_video_candidate-Decodes caps now v m wk (ground arith))
    | inr e ↦ elim s [
      | inl std ↦
          Covers-mono caps now (classify-reaches v.width v.height std)
            (can_decode_h264_tier-Covers caps now _ (ground arith))
      | inr big ↦ absurd (ground (arith, exceeds-false v 1920 1080))
    ]
  ]

  native-Covers :
      (m : Metadata) (s : Source) (d : Device) (h : ℕ)
      → is_native_direct_play_verified caps now m s d ≡ true
      → h ≡ height_of (find_video_stream m.streams)
      → IsStandard h ⊎ (1080 < h)
      → Covers caps now h
  unfolding is_native_direct_play_verified
  native-Covers m s d h n e std = elim (Option-cases (find_video_stream m.streams)) [
    | inl f ↦ absurd (ground arith)
    | inr (v, f) ↦
        let same : h ≡ v.height = ground arith in
        subst (Covers caps now) (sym same)
          (native_video-Covers m (max_supported_output_height d) v (ground arith) (rw same at std))
  ]

-- What holds of an offered tier.
pub record TierSound (o : Offer) (t : QualityTier) : Type 0 where
  -- It is not taller than the source, unless the source lists its renditions.
  pub in_source : (has_variants o.variants ≡ true) ⊎ (t.height ≤ o.source_height)
  -- It is one of the renditions that the source lists.
  pub in_variants : (has_variants o.variants ≡ false) ⊎ (has_variant o.variants t.id ≡ true)
  -- It fits the display's output modes, where they are known, and beyond 1080p they are.
  pub in_output : (o.output_height ≡ 0) ⊎ (t.height ≤ o.output_height)
  pub known_output : (t.height ≤ 1080) ⊎ (0 < o.output_height)
  -- A fresh pass of a decoder probe is at least as tall.
  pub decodable : Covers o.caps o.now t.height

abbrev IsTier : QualityTier → Type 0
IsTier t = (IsStandard t.height × (t.height ≤ nominal t.id)) ⊎ (1080 < t.height)

-- The names of the tiers above 1080p have no decoder probe in `canDecodeH264Tier`.
abbrev Undecodable : QualityTier → Type 0
Undecodable t =
    1080 < t.height → (caps : Capabilities) (now : ℕ) → can_decode_h264_tier caps now t.id ≡ false

standard_tiers-IsTier : All IsTier standard_tiers
unfolding nominal
standard_tiers-IsTier = (
  inr (omega arith),
  (
    inr (omega arith),
    (
      inl (inl refl, omega arith),
      (
        inl (inr (inl refl), omega arith),
        (
          inl (inr (inr (inl refl)), omega arith),
          (
            inl (inr (inr (inr (omega arith))), omega arith),
            (
              inl (inr (inr (inr (omega arith))), omega arith),
              (inl (inr (inr (inr (omega arith))), omega arith), tt),
            ),
          ),
        ),
      ),
    ),
  ),
)

standard_tiers-Undecodable : All Undecodable standard_tiers
unfolding can_decode_h264_tier
standard_tiers-Undecodable = (
  λ h caps now. refl,
  (
    λ h caps now. refl,
    (
      λ h caps now. absurd (omega arith),
      (
        λ h caps now. absurd (omega arith),
        (
          λ h caps now. absurd (omega arith),
          (
            λ h caps now. absurd (omega arith),
            (λ h caps now. absurd (omega arith), (λ h caps now. absurd (omega arith), tt)),
          ),
        ),
      ),
    ),
  ),
)

IsTier-Covers :
    (caps : Capabilities) (now : ℕ) (t : QualityTier)
    → IsTier t
    → Undecodable t
    → can_decode_h264_tier caps now t.id ≡ true
    → Covers caps now t.height
IsTier-Covers caps now t (inl (std, le)) u h =
    Covers-mono caps now le (can_decode_h264_tier-Covers caps now t.id h)
IsTier-Covers caps now t (inr big) u h = absurd (ground (arith, u big caps now))

IsTier-IsStandard : (t : QualityTier) → IsTier t → IsStandard t.height ⊎ (1080 < t.height)
IsTier-IsStandard t (inl (std, le)) = inl std
IsTier-IsStandard t (inr big) = inr big

module _ (o : Offer) (t : QualityTier) (i : IsTier t) (u : Undecodable t) where
  offers-decodable :
      (o.native_verified ≡ true → t.height ≡ o.source_height → Covers o.caps o.now t.height)
      → offers o t ≡ true
      → Covers o.caps o.now t.height
  unfolding offers
  offers-decodable native h = elim (Bool-cases (can_decode_h264_tier o.caps o.now t.id)) [
    | inl d ↦ IsTier-Covers o.caps o.now t i u d
    | inr d ↦ native (ground arith) (ground arith)
  ]

  offers-TierSound :
      (o.native_verified ≡ true → t.height ≡ o.source_height → Covers o.caps o.now t.height)
      → offers o t ≡ true
      → TierSound o t
  unfolding offers
  offers-TierSound native h = record {
    in_source = ground arith;
    in_variants = ground arith;
    in_output = ground arith;
    known_output = ground arith;
    decodable = offers-decodable native h;
  }

-- An option of the inventory: Auto, or a standard tier that is offered soundly.
abbrev pub OptionSound : Offer → QualityOption → Type 0
OptionSound o q =
    (q ≡ auto_option)
    ⊎ ((t : QualityTier) × Memᴰ t standard_tiers × (q ≡ option_of t) × TierSound o t)

if-elim {ℓ κ} :
    {A : Type ℓ} (P : A → Type κ) (b : Bool) (x y : A) → P x → P y → P (if b then x else y)
if-elim P true x y px py = px
if-elim P false x y px py = py

-- The two early returns of `Qualities`.
pub guarded {κ} :
    (P : QualityInventory → Type κ) (m : Metadata) (s : Source) (q : QualityInventory)
    → P auto_inventory
    → P q
    → P (
        if s.live || str_eq s.item.kind "track" || str_eq s.item.provider "iptv"
        then auto_inventory
        else if height_of (find_video_stream m.streams) == 0 && not (has_variants s.variants)
        then auto_inventory
        else q)
guarded P m s q auto rest =
    if-elim P (s.live || str_eq s.item.kind "track" || str_eq s.item.provider "iptv") auto_inventory
      _ auto
      (if-elim P (height_of (find_video_stream m.streams) == 0 && not (has_variants s.variants))
        auto_inventory q auto rest)

module _ ⦃rt : Runtime⦄ (m : Metadata) (s : Source) (d : Device) (now : ℕ) (wk : week ≤ now) where
  offered_sound :
      All
        (OptionSound (offer_of m s d now))
        (map option_of (keep (offers (offer_of m s d now)) standard_tiers))
  unfolding offer_of
  offered_sound =
      let o = offer_of m s d now in
      All-map-keep (OptionSound o) option_of (offers o) standard_tiers λ t mem h.
        let i = All-Mem IsTier standard_tiers standard_tiers-IsTier mem in
        let u = All-Mem Undecodable standard_tiers standard_tiers-Undecodable mem in
        inr (
          t,
          mem,
          refl,
          offers-TierSound o t i u
              (λ v e. native-Covers o.caps now wk m s d t.height v e (IsTier-IsStandard t i)) h,
        )

  inventory_sound :
      (os : List QualityOption) (norm : String)
      → All (OptionSound (offer_of m s d now)) os
      → All (OptionSound (offer_of m s d now)) (inventory_of os norm).options
  inventory_sound [] norm a = (inl refl, tt)
  inventory_sound (q ∷ os) norm a = (inl refl, a)

  -- Past the first week of 1970, every option is Auto or a standard tier, with its name and size,
  -- that is no taller than the source unless the source lists its renditions, is one of these if
  -- it does, fits the display's known output modes, has known output modes if it is beyond 1080p,
  -- and has a decoder probe at least as tall as the tier that passed within the last week, with no
  -- stall and with progress.
  pub qualities-OptionSound :
      (current : String)
      → All (OptionSound (offer_of m s d now)) (qualities m s d now current).options
  unfolding qualities
  qualities-OptionSound current =
      let P : QualityInventory → Type 0 = λ q. All (OptionSound (offer_of m s d now)) q.options in
      let auto : P auto_inventory = (inl refl, tt) in
      guarded P m s _ auto (inventory_sound _ (normalize_quality current) offered_sound)
