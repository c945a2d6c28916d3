-- ===== src/Events/Tests/Consumer.antt =====
-- A reference to a consumer.
use thingino_onvif.Base.{◌≡◌, none, some, refl, arith, codes}
use thingino_onvif.Events.Notify.Consumer.Written.{
  Reference, IsReference, reference_text, port_or, notify_target-reference_text,
}
use thingino_onvif.Events.Notify.Consumer.{
  notify_target, notify_port, parse_reference_url, find_authority, cut_at, reference_port,
  reference_page, reference_host,
}
use thingino_onvif.Text.Decimal.{
  strtol, scan_int, skip_space, scan_signed, scan_unsigned, read_digits, is_digit, is_space,
  clamp_long,
}
use thingino_onvif.Text.Topic.{starts_with}

abbrev consumer : Reference
consumer = record {
  scheme = codes "http";
  host = codes "192.168.1.9";
  port = some 8080;
  path = some (codes "notify");
}

consumer-IsReference : IsReference consumer
consumer-IsReference = record {
  scheme_lacks_colon = ground arith;
  host_lacks_colon = ground arith;
  host_lacks_slash = ground arith;
  host_there = λ e. cc;
  host_fits = omega arith;
  port_in_range = (omega arith, omega arith);
  page_fits = omega arith;
}

notify_target-reference_text_example :
    notify_target (reference_text consumer)
    ≡ some (
      codes "192.168.1.9",
      port_or (some 8080) (notify_port (reference_text consumer)),
      codes "/notify",
    )
notify_target-reference_text_example = notify_target-reference_text consumer consumer-IsReference

-- Without a port and a path.
short_reference :
    notify_target (codes "https://cam.example") ≡ some (codes "cam.example", 443, codes "/")
unfolding notify_target parse_reference_url notify_port find_authority cut_at reference_port
    reference_page reference_host starts_with
short_reference = refl

no_host : notify_target (codes "http://:80/x") ≡ none
unfolding notify_target parse_reference_url notify_port find_authority cut_at reference_port
    reference_page reference_host starts_with
no_host = refl

bad_port : notify_target (codes "http://h:70000/x") ≡ none
unfolding notify_target parse_reference_url notify_port find_authority cut_at reference_port
    reference_page reference_host starts_with strtol scan_int skip_space scan_signed scan_unsigned
    read_digits is_digit is_space clamp_long
bad_port = refl
