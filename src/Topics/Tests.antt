-- ===== src/Topics/Tests.antt =====
-- Destinations through the queue-prepend rule.
use gridappsd_go.Common.{Bytes, codes, ◌≡◌, refl, ◌⊎◌, ◌++◌}
unfoldable use gridappsd_go.Common.{has_prefix}
use gridappsd_go.Topics.{normalize_destination}
use gridappsd_go.Topics.Normal.{Qualified, normalize_destination_lem}

abbrev bare : Bytes
bare = codes "goss.request"

bare_queued : normalize_destination bare ≡ codes "/queue/goss.request"
unfolding normalize_destination has_prefix
bare_queued = refl

topic_kept : normalize_destination (codes "/topic/a") ≡ codes "/topic/a"
unfolding normalize_destination has_prefix
topic_kept = refl

normalize_destination_lem_example :
    ((Qualified bare × (normalize_destination bare ≡ bare))
      ⊎ ((¬ Qualified bare) × (normalize_destination bare ≡ codes "/queue/" ++ bare)))
    × (normalize_destination (normalize_destination bare) ≡ normalize_destination bare)
normalize_destination_lem_example = normalize_destination_lem bare
