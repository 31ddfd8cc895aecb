-- ===== src/Email/Ses.antt =====
-- src/services/email/ses.provider.ts: the SigV4 signature and the adapter. The digests are parameters;
-- a key is the text of its bytes.
use ulmara_backend.Common.{
  Bool, List, Option, Text, [], false, first_chars, if◌then◌else◌, is_digit, join_words, lower, ltb,
  map, none, show_ℕ, some, suc, text, trim, true, words, zero, ℕ, ◌&&◌, ◌++◌, ◌==◌, ◌||◌, ◌∷◌,
}
use ulmara_backend.Email.{
  EmailMessage, EmailSendResult, MailNet, MailSettings, Outcome, addresses, crashed, delivered,
  format_from, or_from, refused, truthy,
}
use ulmara_backend.Json.{Json, literal, member, no_fields, null, object, quoted}
use ulmara_backend.Provider.{
  Reply, Request, is_success, network_error, post_verb, response, timed_out,
}

abbrev newline : ℕ
newline = 10

-- `join(separator)`
unfoldable pub joined : Text → List Text → Text
joined separator [] = []
joined separator (t ∷ ts) = elim ts [ [] ↦ t | _ ∷ _ ↦ t ++ (separator ++ joined separator ts) ]

abbrev three_digits : Text → Bool
three_digits (a ∷ b ∷ c ∷ cs) = is_digit a && (is_digit b && is_digit c)
three_digits _ = false

-- without the matches of `\.\d{3}`: `left` characters of the current match remain
unfoldable drop_millis : (left : ℕ) → Text → Text
drop_millis left [] = []
drop_millis zero (c ∷ cs) = elim (c == b'.' && three_digits cs) [
  | true ↦ drop_millis 3 cs
  | false ↦ c ∷ drop_millis 0 cs
]
drop_millis (suc left) (c ∷ cs) = drop_millis left cs

-- without the matches of `[:-]`
unfoldable drop_separators : Text → Text
drop_separators [] = []
drop_separators (c ∷ cs) =
    let rest = drop_separators cs in if c == b':' || c == b'-' then rest else c ∷ rest

-- `toISOString().replace(/[:-]|\.\d{3}/g, "")`
unfoldable pub amz_date : Text → Text
unfolding drop_millis drop_separators
amz_date iso = drop_separators (drop_millis 0 iso)

-- `a < b`
unfoldable text_lt : Text → Text → Bool
text_lt a [] = false
text_lt [] (d ∷ ds) = true
text_lt (c ∷ cs) (d ∷ ds) = ltb c d || (c == d && text_lt cs ds)

-- a step of the stable `sort` by key
unfoldable insert_header : Text × Text → List (Text × Text) → List (Text × Text)
unfolding text_lt
insert_header h [] = h ∷ []
insert_header h (g ∷ gs) =
    let rest = insert_header h gs in if text_lt g.0 h.0 then g ∷ rest else h ∷ g ∷ gs

unfoldable sort_headers : List (Text × Text) → List (Text × Text)
unfolding insert_header
sort_headers [] = []
sort_headers (h ∷ hs) = insert_header h (sort_headers hs)

-- one entry, its key in lower case and the white space of its value made single spaces
abbrev normalized : Text × Text → Text × Text
normalized (k, v) = (lower k, join_words (words (trim v)))

unfoldable header_lines : List (Text × Text) → Text
header_lines [] = []
header_lines ((k, v) ∷ hs) = k ++ (text ":" ++ (v ++ (newline ∷ header_lines hs)))

-- `canonicalHeaders`
unfoldable pub canonical_headers : List (Text × Text) → Text × Text
unfolding sort_headers header_lines
canonical_headers hs =
    let sorted = sort_headers (map normalized hs) in
    (header_lines sorted, joined (text ";") (map (λ h. h.0) sorted))

pub record SigV4Input : Type 0 where
  pub verb : Text
  pub path : Text
  pub region : Text
  pub service : Text
  pub body : Text
  pub access_key_id : Text
  pub secret_access_key : Text
  pub date : Text
  pub host : Option Text
  pub extra_headers : List (Text × Text)
  pub omit_content_type : Bool

pub record SigV4Result : Type 0 where
  pub authorization : Text
  pub amz : Text
  pub canonical_request : Text
  pub string_to_sign : Text
  pub signature : Text

abbrev host_of : (region : Text) → Option Text → Text
host_of region none = text "email." ++ (region ++ text ".amazonaws.com")
host_of region (some h) = h

-- the headers that are signed, where the extra ones have other keys
unfoldable pub signed_entries : SigV4Input → List (Text × Text)
unfolding amz_date
signed_entries input =
    (if input.omit_content_type then [] else (text "content-type", text "application/json") ∷ [])
    ++ ((text "host", host_of input.region input.host)
        ∷ (text "x-amz-date", amz_date input.date)
        ∷ input.extra_headers)

abbrev slash : Text
slash = text "/"

-- `signAwsRequest`
unfoldable pub sign_aws_request : MailNet → SigV4Input → SigV4Result
unfolding amz_date
sign_aws_request net input =
    let amz = amz_date input.date in
    let stamp = first_chars 8 amz in
    let (block, signed) = canonical_headers (signed_entries input) in
    let canonical_text =
      joined (newline ∷ [])
        (input.verb ∷ input.path ∷ [] ∷ block ∷ signed ∷ net.sha256_hex input.body ∷ []) in
    let scope = joined slash (stamp ∷ input.region ∷ input.service ∷ text "aws4_request" ∷ []) in
    let to_sign =
      joined (newline ∷ [])
        (text "AWS4-HMAC-SHA256" ∷ amz ∷ scope ∷ net.sha256_hex canonical_text ∷ []) in
    let dated = net.hmac_sha256 (text "AWS4" ++ input.secret_access_key) stamp in
    let in_region = net.hmac_sha256 dated input.region in
    let for_service = net.hmac_sha256 in_region input.service in
    let signing = net.hmac_sha256 for_service (text "aws4_request") in
    let signature = net.hmac_sha256_hex signing to_sign in
    record {
      authorization =
          text "AWS4-HMAC-SHA256 Credential="
          ++ (input.access_key_id
              ++ (slash
                  ++ (scope
                      ++ (text ", SignedHeaders="
                          ++ (signed ++ (text ", Signature=" ++ signature))))));
      amz = amz;
      canonical_request = canonical_text;
      string_to_sign = to_sign;
      signature = signature;
    }

pub record SesConfig : Type 0 where
  pub region : Text
  pub access_key_id : Text
  pub secret_access_key : Text
  pub from_email : Option Text
  pub from_name : Text

abbrev in_utf8 : Text → Option Json
in_utf8 value =
    some (
      object (literal ((text "Data", quoted value) ∷ (text "Charset", quoted (text "UTF-8")) ∷ [])))

-- the body that `send` prints
unfoldable pub ses_body : MailSettings → SesConfig → EmailMessage → Json
ses_body settings config m =
    let from = or_from settings config.from_email in
    let parts =
      object (literal ((text "Text", in_utf8 m.plain) ∷ (text "Html", in_utf8 m.html) ∷ [])) in
    let simple =
      object (literal ((text "Subject", in_utf8 m.subject) ∷ (text "Body", some parts) ∷ [])) in
    object (
      literal (
        (text "FromEmailAddress", quoted (format_from config.from_name from))
        ∷ (
          text "Destination",
          some (object (literal ((text "ToAddresses", some (addresses m.recipient)) ∷ []))),
        )
        ∷ (text "Content", some (object (literal ((text "Simple", some simple) ∷ []))))
        ∷ []))

-- the request that `send` makes
unfoldable pub ses_request :
    MailNet → MailSettings → SesConfig → EmailMessage → List Request → Request
ses_request net settings config m log =
    let body = net.stringify (ses_body settings config m) in
    let signed = sign_aws_request net (record {
      verb = post_verb;
      path = text "/v2/email";
      region = config.region;
      service = text "ses";
      body = body;
      access_key_id = config.access_key_id;
      secret_access_key = config.secret_access_key;
      date = net.now_iso log;
      host = none;
      extra_headers = [];
      omit_content_type = false;
    }) in
    record {
      url = text "https://email." ++ (config.region ++ text ".amazonaws.com/v2/email");
      verb = post_verb;
      headers =
          (text "content-type", text "application/json")
          ∷ (text "x-amz-date", signed.amz)
          ∷ (text "authorization", signed.authorization)
          ∷ [];
      body = some body;
    }

abbrev ses_id : Option Json → Outcome EmailSendResult
ses_id none =
    refused (text "ses") (text "invalid_response") (text "SES response did not include a MessageId")
      none
ses_id (some j) = delivered (record { message_id = j; sent_by = text "ses" })

-- A property read on `null` throws.
abbrev ses_result : Json → Outcome EmailSendResult
ses_result null = crashed (text "Cannot read properties of null")
ses_result j =
    if truthy (member (text "MessageId") j)
    then ses_id (member (text "MessageId") j)
    else ses_id none

abbrev parsed_or_empty : MailNet → Text → Json
parsed_or_empty net [] = object no_fields
parsed_or_empty net (c ∷ cs) = elim (net.parse_json (c ∷ cs)) [
  | none ↦ object no_fields
  | some j ↦ j
]

-- what `send` makes of the reply
unfoldable pub read_ses : MailNet → Reply → Outcome EmailSendResult
read_ses net timed_out =
    refused (text "ses") (text "timeout") (text "SES request failed (timeout)") none
read_ses net network_error =
    refused (text "ses") (text "network_error") (text "SES request failed (network_error)") none
read_ses net (response status body) =
    if is_success status
    then ses_result (parsed_or_empty net body)
    else refused (text "ses") (text "send_failed")
        (text "SES rejected the message with status " ++ show_ℕ status) (some status)

-- the `send` that `createSesProvider` returns
unfoldable pub ses_send :
    MailNet
    → MailSettings
    → SesConfig
    → EmailMessage
    → List Request
    → Outcome EmailSendResult × List Request
ses_send net settings config m log =
    let r = ses_request net settings config m log in (read_ses net (net.fetch log r), r ∷ log)
