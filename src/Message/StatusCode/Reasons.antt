-- ===== src/Message/StatusCode/Reasons.antt =====
-- rssip/src/message/status_code.rs, `reason`: the phrase of each status code.
use rssip.Prelude.{String, Text, codes}
use rssip.Message.StatusCode.{
  StatusCode, trying, ringing, call_is_being_forwarded, queued, session_progress,
  early_dialog_terminated, ok, accepted, no_notification, multiple_choices, moved_permanently,
  moved_temporarily, use_proxy, alternative_service, bad_request, unauthorized, payment_required,
  forbidden, not_found, method_not_allowed, not_acceptable, proxy_authentication_required,
  request_timeout, conflict, gone, length_required, conditional_request_failed,
  request_entity_too_large, request_uri_too_long, unsupported_media_type, unsupported_uri_scheme,
  unknown_resource_priority, bad_extension, extension_required, session_interval_too_small,
  interval_too_brief, bad_location_information, use_identity_header, provide_referrer_identity,
  flow_failed, anonymity_disallowed, bad_identity_info, unsupported_certificate,
  invalid_identity_header, first_hop_lacks_outbound_support, max_breadth_exceeded, bad_info_package,
  consent_needed, temporarily_unavailable, call_or_transaction_does_not_exist, loop_detected,
  too_many_hops, address_incomplete, ambiguous, busy_here, request_terminated, not_acceptable_here,
  bad_event, request_updated, request_pending, undecipherable, security_agreement_required,
  server_internal_error, not_implemented, bad_gateway, service_unavailable, server_timeout,
  version_not_supported, message_too_large, push_notification_service_not_supported,
  precondition_failure, busy_everywhere, decline, does_not_exist_anywhere, not_acceptable_anywhere,
  unwanted, rejected,
}

-- The literal that the match returns.
abbrev reason_literal : StatusCode → String
reason_literal trying = "Trying"
reason_literal ringing = "Ringing"
reason_literal call_is_being_forwarded = "Call Is Being Forwarded"
reason_literal queued = "Queued"
reason_literal session_progress = "InviteSession Progress"
reason_literal early_dialog_terminated = "Early Dialog Terminated"
reason_literal ok = "OK"
reason_literal accepted = "Accepted"
reason_literal no_notification = "No Notification"
reason_literal multiple_choices = "Multiple Choices"
reason_literal moved_permanently = "Moved Permanently"
reason_literal moved_temporarily = "Moved Temporarily"
reason_literal use_proxy = "Use Proxy"
reason_literal alternative_service = "Alternative Service"
reason_literal bad_request = "Bad Request"
reason_literal unauthorized = "Unauthorized"
reason_literal payment_required = "Payment Required"
reason_literal forbidden = "Forbidden"
reason_literal not_found = "Not Found"
reason_literal method_not_allowed = "Method Not Allowed"
reason_literal not_acceptable = "Not Acceptable"
reason_literal proxy_authentication_required = "Proxy Authentication Required"
reason_literal request_timeout = "Request Timeout"
reason_literal conflict = "Conflict"
reason_literal gone = "Gone"
reason_literal length_required = "Length Required"
reason_literal conditional_request_failed = "Conditional Request Failed"
reason_literal request_entity_too_large = "Request Entity Too Large"
reason_literal request_uri_too_long = "Request URI Too Long"
reason_literal unsupported_media_type = "Unsupported Media Type"
reason_literal unsupported_uri_scheme = "Unsupported URI Scheme"
reason_literal unknown_resource_priority = "Unknown Resource Priority"
reason_literal bad_extension = "Bad Extension"
reason_literal extension_required = "Extension Required"
reason_literal session_interval_too_small = "InviteSession Interval Too Small"
reason_literal interval_too_brief = "Interval Too Brief"
reason_literal bad_location_information = "Bad Location Information"
reason_literal use_identity_header = "Use Identity Header"
reason_literal provide_referrer_identity = "Provide Referrer Identity"
reason_literal flow_failed = "Flow Failed"
reason_literal anonymity_disallowed = "Anonymity Disallowed"
reason_literal bad_identity_info = "Bad Identity Info"
reason_literal unsupported_certificate = "Unsupported Certificate"
reason_literal invalid_identity_header = "Invalid Identity Header"
reason_literal first_hop_lacks_outbound_support = "First Hop Lacks Outbound Support"
reason_literal max_breadth_exceeded = "Max Breadth Exceeded"
reason_literal bad_info_package = "Bad Info Package"
reason_literal consent_needed = "Consent Needed"
reason_literal temporarily_unavailable = "Temporarily Unavailable"
reason_literal call_or_transaction_does_not_exist = "Call or Transaction Does Not Exist"
reason_literal loop_detected = "Loop Detected"
reason_literal too_many_hops = "Too Many Hops"
reason_literal address_incomplete = "Address Incomplete"
reason_literal ambiguous = "Ambiguous"
reason_literal busy_here = "Busy Here"
reason_literal request_terminated = "Request Terminated"
reason_literal not_acceptable_here = "Not Acceptable Here"
reason_literal bad_event = "Bad Event"
reason_literal request_updated = "Request Updated"
reason_literal request_pending = "Request Pending"
reason_literal undecipherable = "Undecipherable"
reason_literal security_agreement_required = "Security Agreement Required"
reason_literal server_internal_error = "Server Internal Error"
reason_literal not_implemented = "Not Implemented"
reason_literal bad_gateway = "Bad Gateway"
reason_literal service_unavailable = "Service Unavailable"
reason_literal server_timeout = "Server Timeout"
reason_literal version_not_supported = "Version Not Supported"
reason_literal message_too_large = "Message Too Large"
reason_literal push_notification_service_not_supported = "Push Notification Service Not Supported"
reason_literal precondition_failure = "Precondition Failure"
reason_literal busy_everywhere = "Busy Everywhere"
reason_literal decline = "Decline"
reason_literal does_not_exist_anywhere = "Does Not Exist Anywhere"
reason_literal not_acceptable_anywhere = "Not Acceptable Anywhere"
reason_literal unwanted = "Unwanted"
reason_literal rejected = "Rejected"

unfoldable pub reason : StatusCode → Text
reason c = codes (reason_literal c)
