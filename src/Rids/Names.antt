-- ===== src/Rids/Names.antt =====
-- What the names of a pattern are: `NewPatternFromString` against `EndpointName`.
use mathlib.Core.List.{append_assoc}
use spike_broker.Prelude.{
  refl, sym, All, ◌≡◌, false, [], Text, arith, text_eq_iff, ◌++◌, ◌∷◌, ◌≢◌, ◌↔◌, ◌∙◌, ap, List,
}
use spike_broker.Rids.Verb
use spike_broker.Rids.Verb.{MethodType}
use spike_broker.Rids.Method.{new_method, Method, make_verb, make_internal}
use spike_broker.Rids.Pattern.{
  Pattern, pattern_of_verb, parsed, endpoint_name, from_parts, new_pattern_from_string,
  invalid_endpoint, new_pattern,
}
use spike_broker.Text.{join, split}
use spike_broker.Text.Split.{Free, join-split, split-Free, split-ne-nil, split_of_Free}

-- What every pattern made from a text has.
pub record IsFresh (name path : Text) (verb : MethodType) (p : Pattern) : Type 0 where
  pub service_name : p.method_value.service_name ≡ name
  pub generic : p.method_value.generic_endpoint ≡ path
  pub http_method : p.method_value.http_method ≡ verb
  pub version : p.method_value.version ≡ 2
  pub private : p.method_value.is_public ≡ false

pattern_of_verb-IsFresh :
    (name path : Text) (verb : MethodType) (p : Pattern)
    → pattern_of_verb verb (new_method name [] [] [] path 2 []) ≡ parsed p
    → IsFresh name path verb p
unfolding pattern_of_verb new_method new_pattern make_verb make_internal
pattern_of_verb-IsFresh name path verb p e = ground (arith, text_eq_iff verb Verb.internal)

endpoint_name-IsFresh :
    (name path : Text) (verb : MethodType) (p : Pattern)
    → IsFresh name path verb p
    → path ≢ []
    → endpoint_name p ≡ name ++ (b'.' ∷ (path ++ (b'.' ∷ verb)))
unfolding endpoint_name
endpoint_name-IsFresh name path verb p f h = ground arith

-- Where a text with its parts was read, it is the service, a dot and the path.
pub record Reads (endpoint : Text) (verb : MethodType) (p : Pattern) : Type 0 where
  pub name : Text
  pub path : Text
  pub whole : endpoint ≡ name ++ (b'.' ∷ path)
  pub fresh : IsFresh name path verb p

from_parts-Reads :
    (endpoint : Text) (verb : MethodType) (parts : List Text) (p : Pattern)
    → join b'.' parts ≡ endpoint
    → from_parts
        (λ name path. pattern_of_verb verb (new_method name [] [] [] path 2 []))
        endpoint
        parts
      ≡ parsed p
    → Reads endpoint verb p
unfolding from_parts join
from_parts-Reads endpoint verb [] p whole e = cc
from_parts-Reads endpoint verb (a ∷ []) p whole e = cc
from_parts-Reads endpoint verb (a ∷ b ∷ parts) p whole e = record {
  name = a;
  path = join b'.' (b ∷ parts);
  whole = sym whole;
  fresh = pattern_of_verb-IsFresh a (join b'.' (b ∷ parts)) verb p e;
}

pub new_pattern_from_string-Reads :
    (endpoint : Text) (verb : MethodType) (p : Pattern)
    → new_pattern_from_string endpoint verb ≡ parsed p
    → Reads endpoint verb p
unfolding new_pattern_from_string
new_pattern_from_string-Reads endpoint verb p e =
    from_parts-Reads endpoint verb (split b'.' endpoint) p (join-split b'.' endpoint) e

append_dotted : (a b c : Text) → (a ++ (b'.' ∷ b)) ++ (b'.' ∷ c) ≡ a ++ (b'.' ∷ (b ++ (b'.' ∷ c)))
append_dotted a b c = append_assoc a (b'.' ∷ b) (b'.' ∷ c)

-- A pattern that is made from a text with a path that is not empty has that text, a dot and the
-- verb for its name. It is private and of version 2.
pub endpoint_name-new_pattern_from_string :
    (endpoint : Text) (verb : MethodType) (p : Pattern)
    → new_pattern_from_string endpoint verb ≡ parsed p
    → p.method_value.generic_endpoint ≢ []
    → (endpoint_name p ≡ endpoint ++ (b'.' ∷ verb))
      × (p.method_value.version ≡ 2)
      × (p.method_value.is_public ≡ false)
endpoint_name-new_pattern_from_string endpoint verb p e h =
    let r = new_pattern_from_string-Reads endpoint verb p e in
    (
      endpoint_name-IsFresh r.name r.path verb p r.fresh (λ n. h (r.fresh.generic ∙ n))
          ∙ sym (append_dotted r.name r.path verb)
          ∙ ap (λ t. t ++ (b'.' ∷ verb)) (sym r.whole),
      r.fresh.version,
      r.fresh.private,
    )

pattern_of_verb-ne-invalid :
    (verb : MethodType) (m : Method) (t : Text) → pattern_of_verb verb m ≢ invalid_endpoint t
unfolding pattern_of_verb
pattern_of_verb-ne-invalid verb m t = ground arith

from_parts-invalid :
    (endpoint : Text) (verb : MethodType) (parts : List Text)
    → join b'.' parts ≡ endpoint
    → All (Free b'.') parts
    → parts ≢ []
    → from_parts
        (λ name path. pattern_of_verb verb (new_method name [] [] [] path 2 []))
        endpoint
        parts
      ≡ invalid_endpoint endpoint
    → Free b'.' endpoint
unfolding from_parts join
from_parts-invalid endpoint verb [] whole free ne e = absurd (ne refl)
from_parts-invalid endpoint verb (a ∷ []) whole free ne e = rw (← whole) free.0
from_parts-invalid endpoint verb (a ∷ b ∷ parts) whole free ne e =
    absurd (pattern_of_verb-ne-invalid verb _ endpoint e)

-- The endpoint is refused exactly when it holds no dot, whatever the verb.
pub new_pattern_from_string-invalid_iff :
    (endpoint : Text) (verb : MethodType)
    → (new_pattern_from_string endpoint verb ≡ invalid_endpoint endpoint) ↔ Free b'.' endpoint
unfolding new_pattern_from_string from_parts
new_pattern_from_string-invalid_iff endpoint verb = (
  from_parts-invalid endpoint verb (split b'.' endpoint) (join-split b'.' endpoint)
      (split-Free b'.' endpoint) (split-ne-nil b'.' endpoint),
  λ free. rw (split_of_Free b'.' endpoint free),
)
