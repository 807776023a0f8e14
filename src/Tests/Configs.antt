-- ===== src/Tests/Configs.antt =====
-- A configuration at concrete inputs, over nodes that are trees.
use cpp_database.Prelude.{ℕ, ◌≡◌, refl, Option, none, some, arith, if◌then◌else◌}
use cpp_database.Prelude.Text.{Bytes, codes, same}
use cpp_database.Config.{Yaml, MysqlClientConf, default_conf, encode, decode}
use cpp_database.Config.RoundTrip.{YamlLaws, decode-encode}

data Tree : Type 0 where
  void : Tree
  text : Bytes → Tree
  number : ℕ → Tree
  entry : Tree → Bytes → Tree → Tree

abbrev member : Tree → Bytes → Option Tree
member (entry n key value) key' =
    let rest = member n key' in if same key key' then some value else rest
member _ key' = none

abbrev text_of : Tree → Option Bytes
text_of (text s) = some s
text_of _ = none

abbrev number_of : ℕ → Tree → Option ℕ
number_of bits (number n) = some n
number_of bits _ = none

abbrev trees : Yaml
trees = record {
  Node = Tree;
  empty = void;
  of_string = text;
  of_number = number;
  assign = entry;
  index = member;
  as_string = text_of;
  as_number = number_of;
}

abbrev trees_laws : YamlLaws trees
trees_laws = record {
  index-assign = λ n key key' value. refl;
  as_string-of_string = λ s. refl;
  as_number-of_number = λ bits n h. refl;
}

abbrev conf : MysqlClientConf
conf = record default_conf { user_name = codes "root"; thread_num = 8 }

decode-encode_example : decode ⦃yaml = trees⦄ (encode ⦃yaml = trees⦄ conf) default_conf ≡ some conf
decode-encode_example = decode-encode trees trees_laws conf default_conf (omega arith) (omega arith)
