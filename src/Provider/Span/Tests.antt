-- ===== src/Provider/Span/Tests.antt =====
-- The scan for a member on a small object.
use tracepress.Base.{◌≡◌, refl, some, List, [], ◌∷◌, arith, Bytes, eq_bytes}
use tracepress.Base.Ascii.{ascii}
use tracepress.Provider.Span.{member_span}
use tracepress.Provider.Span.Printed.{
  Letter, plain, escape, no_piece, byte, text, nested, scalar, quoted, bracketed, MemberText,
  IsMemberText, print_object, value_of,
}
use tracepress.Provider.Span.Lookup.{member_span-print_object}

abbrev word : Bytes → List Letter
word [] = []
word (b ∷ bs) = plain b ∷ word bs

-- `"e": "a\"b" `
abbrev escaped_member : MemberText
escaped_member = record {
  before_key = [];
  key = word (ascii "e");
  before_colon = [];
  before_value = ascii " ";
  value = quoted (plain b'a' ∷ escape b'"' ∷ plain b'b' ∷ []);
  after_value = ascii " ";
}

-- `"a":[{"usage"}1]`
abbrev nested_member : MemberText
nested_member = record {
  before_key = ascii " ";
  key = word (ascii "a");
  before_colon = [];
  before_value = [];
  value =
      bracketed b'[' (nested b'{' (text (word (ascii "usage")) no_piece) b'}' (byte b'1' no_piece))
        b']';
  after_value = [];
}

-- `"usage":7`
abbrev usage_member : MemberText
usage_member = record {
  before_key = [];
  key = word (ascii "usage");
  before_colon = [];
  before_value = [];
  value = scalar (ascii "7");
  after_value = [];
}

abbrev members : List MemberText
members = escaped_member ∷ nested_member ∷ usage_member ∷ []

escaped_member-IsMemberText : IsMemberText escaped_member
escaped_member-IsMemberText = record {
  key_blank = tt;
  key_letters = ground arith;
  colon_blank = tt;
  value_blank = ground arith;
  value_text = ground arith;
  after_blank = ground arith;
}

nested_member-IsMemberText : IsMemberText nested_member
nested_member-IsMemberText = record {
  key_blank = ground arith;
  key_letters = ground arith;
  colon_blank = tt;
  value_blank = tt;
  value_text = ground arith;
  after_blank = tt;
}

usage_member-IsMemberText : IsMemberText usage_member
usage_member-IsMemberText = record {
  key_blank = tt;
  key_letters = ground arith;
  colon_blank = tt;
  value_blank = tt;
  value_text = ground arith;
  after_blank = tt;
}

value_of-usage : value_of members (ascii "usage") ≡ some (ascii "7")
unfolding eq_bytes
value_of-usage = refl

member_span-print_object_example :
    member_span (print_object (ascii " ") members [] (ascii "}")) (ascii "usage")
    ≡ value_of members (ascii "usage")
member_span-print_object_example =
    member_span-print_object (ascii " ") [] (ascii "}") (ascii "usage") members (ground arith)
      (escaped_member-IsMemberText, (nested_member-IsMemberText, (usage_member-IsMemberText, tt)))
      tt
