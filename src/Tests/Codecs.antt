-- ===== src/Tests/Codecs.antt =====
-- The encodings at concrete inputs.
use depscloud.Tracker.Alpha.Schema.{encode, Message, Source, key_for_source, manages}
use depscloud.Tracker.Alpha.Schema.{manages_type}
use depscloud.Base.Bytes.{AreBytes, bytes}
use depscloud.Tracker.Alpha.Types.{GraphItem, key_eq}
use depscloud.Base.{[], arith, list_eq, nat_eq, ok, option_eq, refl, some, ◌∷◌, ◌≡◌}
use depscloud.Codec.Base64.{std_decode, std_encode}
use depscloud.Codec.Base64.RoundTrip.{std_decode-std_encode}
use depscloud.Tests.Samples.{sample_env}

text-AreBytes : AreBytes (bytes "deps")
text-AreBytes = (omega arith, (omega arith, (omega arith, (omega arith, tt))))

std_reads_back : std_decode (std_encode (bytes "deps")) ≡ some (bytes "deps")
std_reads_back = std_decode-std_encode (bytes "deps") text-AreBytes

abbrev manages_message : Message
manages_message =
    manages (record { language = bytes "go"; system = bytes "vgo"; version = bytes "v1" })

abbrev manages_item_ : GraphItem
manages_item_ = record {
  graph_item_type = manages_type;
  k1 = [];
  k2 = [];
  k3 = [];
  encoding = 1;
  graph_item_data = 3 ∷ 2 ∷ 103 ∷ 111 ∷ 3 ∷ 118 ∷ 103 ∷ 111 ∷ 2 ∷ 118 ∷ 49 ∷ [];
}

encode_manages : encode sample_env manages_message ≡ ok manages_item_
unfolding encode sample_env
encode_manages = refl

abbrev site : Source
site = record { url = bytes "a"; kind = bytes "repository"; ref = [] }

abbrev same_site : Source
same_site = record { url = bytes "a"; kind = []; ref = bytes "main" }

same_key : key_for_source sample_env site ≡ key_for_source sample_env same_site
unfolding key_for_source
same_key = refl
