-- ===== src/Encryption/Url/Tests.antt =====
-- Runs of src/encryption/url.rs, and its theorems at a concrete path.
use hf_mount_encrypted.Base.{◌≡◌, refl, All, AreBytes, arith}
use hf_mount_encrypted.Base.Text.{bytes, split}
use hf_mount_encrypted.Encryption.Url.{
  encode_path_segments, encode_from, encode_segment, encode_byte, is_unreserved,
}
use hf_mount_encrypted.Encryption.Url.Decoding
use hf_mount_encrypted.Encryption.Url.Decoding.{percent_decode, outside, IsUrlByte}

-- The inputs of the source's own tests.
encoded :
    (encode_path_segments (bytes "a?b#c%d") ≡ bytes "a%3Fb%23c%25d")
    × (encode_path_segments (bytes "dir/na me") ≡ bytes "dir/na%20me")
    × (encode_path_segments (bytes "AZaz09-._~") ≡ bytes "AZaz09-._~")
unfolding encode_path_segments encode_from encode_segment encode_byte is_unreserved split
encoded = (refl, refl, refl)

name_bytes : AreBytes (bytes "dir/na me?")
name_bytes = omega arith

percent_decode-encode_path_segments_example :
    percent_decode outside (encode_path_segments (bytes "dir/na me?")) ≡ bytes "dir/na me?"
percent_decode-encode_path_segments_example =
    Decoding.percent_decode-encode_path_segments (bytes "dir/na me?") name_bytes

encode_path_segments-IsUrlByte_example : All IsUrlByte (encode_path_segments (bytes "dir/na me?"))
encode_path_segments-IsUrlByte_example =
    Decoding.encode_path_segments-IsUrlByte (bytes "dir/na me?") name_bytes
