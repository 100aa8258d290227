-- ===== src/Base91/Tests.antt =====
-- Runs of src/base91.rs, and its theorems at concrete inputs.
use hf_mount_encrypted.Base.{◌≡◌, ◌≤◌, refl, arith, length}
use hf_mount_encrypted.Base.Results.{ok, err}
use hf_mount_encrypted.Base91.{bytes, encode, decode, encoded_len_upper_bound, invalid_character}
use hf_mount_encrypted.Base91.Bounds.{length-encode-le}
use hf_mount_encrypted.Base91.RoundTrip.{decode-encode}

encode_hello : encode (bytes "hello world") ≡ bytes "TPwJh>Io2Tv!lE"
unfolding encode
encode_hello = refl

decode_slash : decode (bytes "AB/CD") ≡ err invalid_character
unfolding decode
decode_slash = refl

decode-encode_example : decode (encode (bytes "secret.txt")) ≡ ok (bytes "secret.txt")
decode-encode_example = decode-encode (bytes "secret.txt") (omega arith)

length-encode-le_example :
    length (encode (bytes "secret")) ≤ encoded_len_upper_bound (length (bytes "secret"))
length-encode-le_example = length-encode-le (bytes "secret")
