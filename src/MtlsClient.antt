-- ===== src/MtlsClient.antt =====
-- The client of test/client_mtls/index.js: its answer to a challenge of the broker, and the spaces that
-- it reads from its ACL.
pub mod Exchange
pub mod Topics
use otmc_broker.Prelude.{
  ℕ, zero, suc, Text, codes, text_eq, List, [], ◌∷◌, ◌++◌, Option, none, some, length, get_elem?,
  get_last?, if◌then◌else◌,
}
use otmc_broker.Json.{Value, string, array, object, nil, cons, end, field}
use otmc_broker.Runtime.{Runtime}
use otmc_broker.Acl.{AclEntry, AclConfig}
use otmc_broker.Packet.{AuthData, continue_auth}
use otmc_broker.Session.Auth.{auth_text, is_missing}

-- What the client has: its certificates, and of `crypto` and `bs58` what is made of its key.
pub record Holder : Type 0 where
  -- `cert.toString()`.
  pub cert : Text
  -- `createSign('SHA256')`, `update(text)`, `sign(key, 'base64')`.
  pub sign : Text → Text
  -- Base58 of SHA-256 over the public key's SPKI DER.
  pub key_address : Text

-- The `auth` packet that the callback gets.
pub record Answer : Type 0 where
  pub reason_code : ℕ
  pub authentication_method : Text
  pub authentication_data : Text

unfoldable pub challenge_msg : Text → Text → Value
challenge_msg challenge time_stamp = object (
    field (codes "challenge") (string challenge)
      (field (codes "timeStamp") (string time_stamp) end))

unfoldable pub signed_msg : Holder → Value → Text → Value
signed_msg holder claim signature = object (
    field (codes "data") claim (
      field (codes "signature") (string signature) (
        field (codes "algorithm") (string (codes "SHA256"))
          (field (codes "keyAddress") (string holder.key_address) end))))

unfoldable pub challenged_msg : Holder → Value → Value
challenged_msg holder signed = object (
    field (codes "type") (string (codes "client_auth")) (
      field (codes "challenges") (array (cons signed nil))
        (field (codes "cert") (string holder.cert) end)))

module _ (r : Runtime) (holder : Holder) where
  open r use {stringify}

  unfoldable pub message_for : Text → Text → Value
  message_for challenge time_stamp =
      let claim = challenge_msg challenge time_stamp in
      challenged_msg holder (signed_msg holder claim (holder.sign (stringify claim)))

  -- `none` if the callback gets an error: the packet has no challenge. The text of the time is that of
  -- the clock at the call.
  unfoldable pub handle_auth : Text → Option AuthData → Option Answer
  unfolding message_for
  handle_auth time_stamp none = none
  handle_auth time_stamp (some challenge) =
      if is_missing (some challenge)
      then none
      else some (record {
        reason_code = continue_auth;
        authentication_method = codes "certchain";
        authentication_data = stringify (message_for (auth_text challenge) time_stamp);
      })

-- `replace` of an expression that is a fixed text at the end.
unfoldable pub without_end : Text → Text → Text
without_end suffix [] = []
without_end suffix (c ∷ t) =
    let rest = without_end suffix t in if text_eq (c ∷ t) suffix then [] else c ∷ rest

-- `none` is undefined.
unfoldable pub space_of : Option AclEntry → Option Text
unfolding without_end
space_of none = none
space_of (some entry) = some (without_end (codes "/#") (without_end (codes "/+") entry.topic))

pub record Spaces : Type 0 where
  pub top_space : Option Text
  pub leaf_space : Option Text
  pub mid_space : Option Text

-- The text of the ACL is taken as the entries that it holds; an empty text is falsy, as none is. No
-- element has the index -1.
unfoldable pub parse_space_info : Option AclConfig → Spaces
unfolding space_of
parse_space_info none = record { top_space = none; leaf_space = none; mid_space = none }
parse_space_info (some acl) = record {
  top_space = space_of (get_elem? acl 0);
  leaf_space = space_of (get_last? acl);
  mid_space = space_of (get_elem? acl 1);
}

-- A space in a template text.
abbrev pub space_text : Option Text → Text
space_text none = codes "undefined"
space_text (some space) = space

-- What the client subscribes with, and where it publishes after two seconds.
unfoldable pub sub_topic_3 : Spaces → Text
sub_topic_3 spaces = space_text spaces.mid_space ++ codes "/+/secure/topic"

unfoldable pub pub_topic_1 : Spaces → Text
pub_topic_1 spaces = space_text spaces.leaf_space ++ codes "/secure/topic"
