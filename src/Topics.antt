-- ===== src/Topics.antt =====
-- topics/topics.go: destination names.
pub mod Normal
pub mod Tests
use gridappsd_go.Common.{Bytes, Bool, codes, has_prefix, ◌||◌, ◌++◌, if◌then◌else◌}

abbrev pub topic_prefix : Bytes
topic_prefix = codes "/topic/"

abbrev pub queue_prefix : Bytes
queue_prefix = codes "/queue/"

abbrev pub temp_queue_prefix : Bytes
temp_queue_prefix = codes "/temp-queue/"

unfoldable pub normalize_destination : Bytes → Bytes
normalize_destination dest =
    if has_prefix dest topic_prefix
      || has_prefix dest queue_prefix
      || has_prefix dest temp_queue_prefix
    then dest
    else queue_prefix ++ dest
