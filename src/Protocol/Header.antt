-- ===== src/Protocol/Header.antt =====
-- internal/core/protocol/header.go: the header of a message, the two magic numbers and the
-- length of the fixed part. The enumerations CodecType and CompressionType of
-- internal/core/codec are bytes.
use kama_rpc_go.Base.{ℕ, Bytes, [], ◌<◌, ◌≤◌, ◌^◌, length, IsByte}

abbrev pub magic_json_header : ℕ
magic_json_header = 0x4b52

abbrev pub magic_binary_header : ℕ
magic_binary_header = 0x4b53

abbrev pub header_fixed_len : ℕ
header_fixed_len = 10

pub record Header : Type 0 where
  pub request_id : ℕ
  pub service_name : Bytes
  pub method_name : Bytes
  pub error : Bytes
  pub codec_type : ℕ
  pub compression : ℕ

-- Header{}
abbrev pub zero_header : Header
zero_header = record {
  request_id = 0;
  service_name = [];
  method_name = [];
  error = [];
  codec_type = 0;
  compression = 0;
}

abbrev pub max_header_string_len : ℕ
max_header_string_len = 2 ^ 20

-- The ranges of the Go types, and strings that the binary header can carry.
pub record IsHeader (h : Header) : Type 0 where
  pub id_fits : h.request_id < 2 ^ 64
  pub codec_fits : IsByte h.codec_type
  pub compression_fits : IsByte h.compression
  pub service_fits : length h.service_name ≤ max_header_string_len
  pub method_fits : length h.method_name ≤ max_header_string_len
  pub error_fits : length h.error ≤ max_header_string_len
