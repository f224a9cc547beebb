-- ===== src/Mqtt/Topic/Examples.antt =====
-- Topics that kits publish at.
use astroplant_api.Prelude.{codes, ◌≡◌, ◌↔◌, refl, ok, err}
use astroplant_api.Mqtt.Topic.{Topic, media, HasNoSlash, try_from, of_parts, kind_of}
use astroplant_api.Prelude.Split.{split}
use astroplant_api.Mqtt.Topic.RoundTrip.{format, try_from_iff}

abbrev pictures : Topic
pictures = record { kit_serial = codes "k-garden"; kind = media }

rejects : try_from (codes "kit/k-garden/media/raw") ≡ err (codes "kit/k-garden/media/raw")
unfolding try_from split of_parts kind_of
rejects = refl

try_from_iff_example :
    (try_from (codes "kit/k-garden/media") ≡ ok pictures)
    ↔ ((codes "kit/k-garden/media" ≡ format pictures) × HasNoSlash pictures.kit_serial)
try_from_iff_example = try_from_iff (codes "kit/k-garden/media") pictures
