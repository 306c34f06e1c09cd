-- ===== src/Tracker/Error.antt =====
-- src/core/tracker/tracker_error.rs: the errors of the trackers. An error of another crate or of the
-- runtime is the text that it displays.
use Prim.Native.String.{String}
use motte_seed.Util.Bencode.{BencodeDecodableError}

pub data TrackerError : Type 0 where
  invalid_uri stream_error hyper_error http_error utf8_error invalid_uri_parts :
      String → TrackerError
  bencode_error : BencodeDecodableError → TrackerError
  streaming_error other : String → TrackerError
