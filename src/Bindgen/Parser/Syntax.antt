-- ===== src/Bindgen/Parser/Syntax.antt =====
-- The raw syntax tree of bindgen/idl/parse.go. A nil pointer is none, a nil slice the empty list.
use hqq.Common.{ℕ, Bool, Option, List}
use hqq.Bindgen.Lexer.{Pos, BigInt}

-- `rawIntRef`
pub record RawIntRef : Type 0 where
  pub pos : Pos
  pub is_name : Bool
  pub name : List ℕ
  pub val : Option BigInt

-- `rawType`
pub record RawType : Type 0 where
  pub pos : Pos
  pub elem_name : List ℕ
  pub named : Bool
  pub has_arr : Bool
  pub arr_len : Option RawIntRef
  pub bound : Option RawIntRef
  pub bound_pos : Option Pos

-- `argKind`
pub data ArgKind : Type 0 where
  a_int a_str a_ret a_ident : ArgKind

-- `rawArg`: its position, kind, value, text and `hasParens`, and its arguments
mutual
  pub data RawArg : Type 0 where
    raw_arg : Pos → ArgKind → Option BigInt → List ℕ → Bool → RawArgs → RawArg

  pub data RawArgs : Type 0 where
    no_args : RawArgs
    arg : RawArg → RawArgs → RawArgs

-- `rawAnn`
pub record RawAnn : Type 0 where
  pub pos : Pos
  pub name : List ℕ
  pub has_parens : Bool
  pub args : RawArgs

-- `rawName`
pub record RawName : Type 0 where
  pub pos : Pos
  pub text : List ℕ

-- `rawConst`
pub record RawConst : Type 0 where
  pub pos : Pos
  pub name : RawName
  pub typ : List ℕ
  pub val : Option BigInt
  pub vpos : Pos
  pub tpos : Pos

-- `rawHandle`
pub record RawHandle : Type 0 where
  pub pos : Pos
  pub anns : List RawAnn
  pub name : RawName
  pub owned_by : Option RawName
  pub destroy : RawName

-- `rawMember`
pub record RawMember : Type 0 where
  pub pos : Pos
  pub name : RawName
  pub typ : RawType

-- `rawStruct`
pub record RawStruct : Type 0 where
  pub pos : Pos
  pub anns : List RawAnn
  pub name : RawName
  pub members : List RawMember

-- `rawCase`
pub record RawCase : Type 0 where
  pub pos : Pos
  pub tag : Option BigInt
  pub tpos : Pos
  pub name : RawName
  pub typ : Option RawType

-- `rawUnion`
pub record RawUnion : Type 0 where
  pub pos : Pos
  pub anns : List RawAnn
  pub name : RawName
  pub cases : List RawCase

-- `Dir`
pub data Dir : Type 0 where
  dir_in dir_out dir_in_out : Dir

-- `rawParam`
pub record RawParam : Type 0 where
  pub pos : Pos
  pub dir : Dir
  pub name : RawName
  pub typ : RawType
  pub anns : List RawAnn

-- `rawFunc`
pub record RawFunc : Type 0 where
  pub pos : Pos
  pub anns : List RawAnn
  pub shim : Bool
  pub name : RawName
  pub params : List RawParam
  pub ret : Option RawType
  pub ret_anns : List RawAnn
  pub ret_pos : Option Pos

-- `rawInclude`
pub record RawInclude : Type 0 where
  pub pos : Pos
  pub text : List ℕ

-- `rawFile`; what the head of a file sets is none before
pub record RawFile : Type 0 where
  pub idl_version : Option BigInt
  pub idl_pos : Option Pos
  pub service_anns : List RawAnn
  pub service : Option RawName
  pub service_pos : Option Pos
  pub includes : List RawInclude
  pub consts : List RawConst
  pub handles : List RawHandle
  pub structs : List RawStruct
  pub unions : List RawUnion
  pub funcs : List RawFunc
