-- ===== src/Message/StatusCode/Tables.antt =====
-- The enum `StatusCode` and the tables of its matches.
use rssip.Prelude.{ℕ, String, List, [], ◌∷◌}

pub data StatusCode : Type 0 where
  trying : StatusCode
  ringing : StatusCode
  call_is_being_forwarded : StatusCode
  queued : StatusCode
  session_progress : StatusCode
  early_dialog_terminated : StatusCode
  ok : StatusCode
  accepted : StatusCode
  no_notification : StatusCode
  multiple_choices : StatusCode
  moved_permanently : StatusCode
  moved_temporarily : StatusCode
  use_proxy : StatusCode
  alternative_service : StatusCode
  bad_request : StatusCode
  unauthorized : StatusCode
  payment_required : StatusCode
  forbidden : StatusCode
  not_found : StatusCode
  method_not_allowed : StatusCode
  not_acceptable : StatusCode
  proxy_authentication_required : StatusCode
  request_timeout : StatusCode
  conflict : StatusCode
  gone : StatusCode
  length_required : StatusCode
  conditional_request_failed : StatusCode
  request_entity_too_large : StatusCode
  request_uri_too_long : StatusCode
  unsupported_media_type : StatusCode
  unsupported_uri_scheme : StatusCode
  unknown_resource_priority : StatusCode
  bad_extension : StatusCode
  extension_required : StatusCode
  session_interval_too_small : StatusCode
  interval_too_brief : StatusCode
  bad_location_information : StatusCode
  use_identity_header : StatusCode
  provide_referrer_identity : StatusCode
  flow_failed : StatusCode
  anonymity_disallowed : StatusCode
  bad_identity_info : StatusCode
  unsupported_certificate : StatusCode
  invalid_identity_header : StatusCode
  first_hop_lacks_outbound_support : StatusCode
  max_breadth_exceeded : StatusCode
  bad_info_package : StatusCode
  consent_needed : StatusCode
  temporarily_unavailable : StatusCode
  call_or_transaction_does_not_exist : StatusCode
  loop_detected : StatusCode
  too_many_hops : StatusCode
  address_incomplete : StatusCode
  ambiguous : StatusCode
  busy_here : StatusCode
  request_terminated : StatusCode
  not_acceptable_here : StatusCode
  bad_event : StatusCode
  request_updated : StatusCode
  request_pending : StatusCode
  undecipherable : StatusCode
  security_agreement_required : StatusCode
  server_internal_error : StatusCode
  not_implemented : StatusCode
  bad_gateway : StatusCode
  service_unavailable : StatusCode
  server_timeout : StatusCode
  version_not_supported : StatusCode
  message_too_large : StatusCode
  push_notification_service_not_supported : StatusCode
  precondition_failure : StatusCode
  busy_everywhere : StatusCode
  decline : StatusCode
  does_not_exist_anywhere : StatusCode
  not_acceptable_anywhere : StatusCode
  unwanted : StatusCode
  rejected : StatusCode

-- The discriminants, `code as u16`.
unfoldable pub as_u16 : StatusCode → ℕ
as_u16 trying = 100
as_u16 ringing = 180
as_u16 call_is_being_forwarded = 181
as_u16 queued = 182
as_u16 session_progress = 183
as_u16 early_dialog_terminated = 199
as_u16 ok = 200
as_u16 accepted = 202
as_u16 no_notification = 204
as_u16 multiple_choices = 300
as_u16 moved_permanently = 301
as_u16 moved_temporarily = 302
as_u16 use_proxy = 305
as_u16 alternative_service = 380
as_u16 bad_request = 400
as_u16 unauthorized = 401
as_u16 payment_required = 402
as_u16 forbidden = 403
as_u16 not_found = 404
as_u16 method_not_allowed = 405
as_u16 not_acceptable = 406
as_u16 proxy_authentication_required = 407
as_u16 request_timeout = 408
as_u16 conflict = 409
as_u16 gone = 410
as_u16 length_required = 411
as_u16 conditional_request_failed = 412
as_u16 request_entity_too_large = 413
as_u16 request_uri_too_long = 414
as_u16 unsupported_media_type = 415
as_u16 unsupported_uri_scheme = 416
as_u16 unknown_resource_priority = 417
as_u16 bad_extension = 420
as_u16 extension_required = 421
as_u16 session_interval_too_small = 422
as_u16 interval_too_brief = 423
as_u16 bad_location_information = 424
as_u16 use_identity_header = 428
as_u16 provide_referrer_identity = 429
as_u16 flow_failed = 430
as_u16 anonymity_disallowed = 433
as_u16 bad_identity_info = 436
as_u16 unsupported_certificate = 437
as_u16 invalid_identity_header = 438
as_u16 first_hop_lacks_outbound_support = 439
as_u16 max_breadth_exceeded = 440
as_u16 bad_info_package = 469
as_u16 consent_needed = 470
as_u16 temporarily_unavailable = 480
as_u16 call_or_transaction_does_not_exist = 481
as_u16 loop_detected = 482
as_u16 too_many_hops = 483
as_u16 address_incomplete = 484
as_u16 ambiguous = 485
as_u16 busy_here = 486
as_u16 request_terminated = 487
as_u16 not_acceptable_here = 488
as_u16 bad_event = 489
as_u16 request_updated = 490
as_u16 request_pending = 491
as_u16 undecipherable = 493
as_u16 security_agreement_required = 494
as_u16 server_internal_error = 500
as_u16 not_implemented = 501
as_u16 bad_gateway = 502
as_u16 service_unavailable = 503
as_u16 server_timeout = 504
as_u16 version_not_supported = 505
as_u16 message_too_large = 513
as_u16 push_notification_service_not_supported = 555
as_u16 precondition_failure = 580
as_u16 busy_everywhere = 600
as_u16 decline = 603
as_u16 does_not_exist_anywhere = 604
as_u16 not_acceptable_anywhere = 606
as_u16 unwanted = 607
as_u16 rejected = 608

-- The arms of the match in `from_u16`, in their order.
abbrev pub from_u16_arms : List (ℕ × StatusCode)
from_u16_arms =
    (100, trying)
    ∷ (180, ringing)
    ∷ (181, call_is_being_forwarded)
    ∷ (182, queued)
    ∷ (183, session_progress)
    ∷ (199, early_dialog_terminated)
    ∷ (200, ok)
    ∷ (202, accepted)
    ∷ (204, no_notification)
    ∷ (300, multiple_choices)
    ∷ (301, moved_permanently)
    ∷ (302, moved_temporarily)
    ∷ (305, use_proxy)
    ∷ (380, alternative_service)
    ∷ (400, bad_request)
    ∷ (401, unauthorized)
    ∷ (402, payment_required)
    ∷ (403, forbidden)
    ∷ (404, not_found)
    ∷ (405, method_not_allowed)
    ∷ (406, not_acceptable)
    ∷ (407, proxy_authentication_required)
    ∷ (408, request_timeout)
    ∷ (409, conflict)
    ∷ (410, gone)
    ∷ (411, length_required)
    ∷ (412, conditional_request_failed)
    ∷ (413, request_entity_too_large)
    ∷ (414, request_uri_too_long)
    ∷ (415, unsupported_media_type)
    ∷ (416, unsupported_uri_scheme)
    ∷ (417, unknown_resource_priority)
    ∷ (420, bad_extension)
    ∷ (421, extension_required)
    ∷ (422, session_interval_too_small)
    ∷ (423, interval_too_brief)
    ∷ (424, bad_location_information)
    ∷ (428, use_identity_header)
    ∷ (429, provide_referrer_identity)
    ∷ (430, flow_failed)
    ∷ (433, anonymity_disallowed)
    ∷ (436, bad_identity_info)
    ∷ (437, unsupported_certificate)
    ∷ (438, invalid_identity_header)
    ∷ (439, first_hop_lacks_outbound_support)
    ∷ (440, max_breadth_exceeded)
    ∷ (469, bad_info_package)
    ∷ (470, consent_needed)
    ∷ (480, temporarily_unavailable)
    ∷ (481, call_or_transaction_does_not_exist)
    ∷ (482, loop_detected)
    ∷ (483, too_many_hops)
    ∷ (484, address_incomplete)
    ∷ (485, ambiguous)
    ∷ (486, busy_here)
    ∷ (487, request_terminated)
    ∷ (488, not_acceptable_here)
    ∷ (489, bad_event)
    ∷ (490, request_updated)
    ∷ (491, request_pending)
    ∷ (493, undecipherable)
    ∷ (494, security_agreement_required)
    ∷ (500, server_internal_error)
    ∷ (501, not_implemented)
    ∷ (502, bad_gateway)
    ∷ (503, service_unavailable)
    ∷ (504, server_timeout)
    ∷ (505, version_not_supported)
    ∷ (513, message_too_large)
    ∷ (555, push_notification_service_not_supported)
    ∷ (580, precondition_failure)
    ∷ (600, busy_everywhere)
    ∷ (603, decline)
    ∷ (604, does_not_exist_anywhere)
    ∷ (606, not_acceptable_anywhere)
    ∷ (607, unwanted)
    ∷ (608, rejected)
    ∷ []

-- The arms of the match in `try_from`, by their byte literals.
abbrev pub try_from_arms : List (String × StatusCode)
try_from_arms =
    ("100", trying)
    ∷ ("180", ringing)
    ∷ ("181", call_is_being_forwarded)
    ∷ ("182", queued)
    ∷ ("183", session_progress)
    ∷ ("199", early_dialog_terminated)
    ∷ ("200", ok)
    ∷ ("202", accepted)
    ∷ ("204", no_notification)
    ∷ ("300", multiple_choices)
    ∷ ("301", moved_permanently)
    ∷ ("302", moved_temporarily)
    ∷ ("305", use_proxy)
    ∷ ("380", alternative_service)
    ∷ ("400", bad_request)
    ∷ ("401", unauthorized)
    ∷ ("402", payment_required)
    ∷ ("403", forbidden)
    ∷ ("404", not_found)
    ∷ ("405", method_not_allowed)
    ∷ ("406", not_acceptable)
    ∷ ("407", proxy_authentication_required)
    ∷ ("408", request_timeout)
    ∷ ("409", conflict)
    ∷ ("410", gone)
    ∷ ("411", length_required)
    ∷ ("412", conditional_request_failed)
    ∷ ("413", request_entity_too_large)
    ∷ ("414", request_uri_too_long)
    ∷ ("415", unsupported_media_type)
    ∷ ("416", unsupported_uri_scheme)
    ∷ ("417", unknown_resource_priority)
    ∷ ("420", bad_extension)
    ∷ ("421", extension_required)
    ∷ ("422", session_interval_too_small)
    ∷ ("423", interval_too_brief)
    ∷ ("424", bad_location_information)
    ∷ ("428", use_identity_header)
    ∷ ("429", provide_referrer_identity)
    ∷ ("430", flow_failed)
    ∷ ("433", anonymity_disallowed)
    ∷ ("436", bad_identity_info)
    ∷ ("437", unsupported_certificate)
    ∷ ("438", invalid_identity_header)
    ∷ ("439", first_hop_lacks_outbound_support)
    ∷ ("440", max_breadth_exceeded)
    ∷ ("469", bad_info_package)
    ∷ ("470", consent_needed)
    ∷ ("480", temporarily_unavailable)
    ∷ ("481", call_or_transaction_does_not_exist)
    ∷ ("482", loop_detected)
    ∷ ("483", too_many_hops)
    ∷ ("484", address_incomplete)
    ∷ ("485", ambiguous)
    ∷ ("486", busy_here)
    ∷ ("487", request_terminated)
    ∷ ("488", not_acceptable_here)
    ∷ ("489", bad_event)
    ∷ ("490", request_updated)
    ∷ ("491", request_pending)
    ∷ ("493", undecipherable)
    ∷ ("494", security_agreement_required)
    ∷ ("500", server_internal_error)
    ∷ ("501", not_implemented)
    ∷ ("502", bad_gateway)
    ∷ ("503", service_unavailable)
    ∷ ("504", server_timeout)
    ∷ ("505", version_not_supported)
    ∷ ("513", message_too_large)
    ∷ ("555", push_notification_service_not_supported)
    ∷ ("580", precondition_failure)
    ∷ ("600", busy_everywhere)
    ∷ ("603", decline)
    ∷ ("604", does_not_exist_anywhere)
    ∷ ("606", not_acceptable_anywhere)
    ∷ ("607", unwanted)
    ∷ ("608", rejected)
    ∷ []
