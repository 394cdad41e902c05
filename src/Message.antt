-- ===== src/Message.antt =====
-- message/message.go: the names of the STOMP headers that the client stamps.
use gridappsd_go.Common.{Bytes, codes}

abbrev pub header_goss_has_subject : Bytes
header_goss_has_subject = codes "GOSS_HAS_SUBJECT"

abbrev pub header_goss_subject : Bytes
header_goss_subject = codes "GOSS_SUBJECT"

abbrev pub header_reply_to : Bytes
header_reply_to = codes "reply-to"

abbrev pub header_content_type : Bytes
header_content_type = codes "content-type"

abbrev pub header_destination : Bytes
header_destination = codes "destination"
