-- ===== src/Functions.antt =====
-- src/fns.rs: values bound to the first parameters of a function object.
--
-- A function object that is called by value, by `&mut` and by `&` implements three traits; a call by
-- `&mut` gives the object back as the call leaves it. The arguments are a tuple, whose type is a list.
pub mod Binding
pub mod Lambda
pub mod Reverse
use crossmist.Common.{List, [], ◌∷◌, ◌++◌}
use crossmist.Serde.{Object}
use crossmist.Builtins.Tuple.{Tuple, Objects}
use crossmist.Derive.{struct_object}
use crossmist.Functions.Reverse.{arguments}

-- `trait FnOnceObject<Args>`
pub record FnOnceObject (F : Type 0) (Args : List (Type 0)) (Output : Type 0) : Type 0 where
  pub call_object_once : F → Tuple Args → Output

-- `trait FnMutObject<Args>`
pub record FnMutObject (F : Type 0) (Args : List (Type 0)) (Output : Type 0) : Type 0 where
  pub call_object_mut : F → Tuple Args → Output × F

-- `trait FnObject<Args>`
pub record FnObject (F : Type 0) (Args : List (Type 0)) (Output : Type 0) : Type 0 where
  pub call_object : F → Tuple Args → Output

-- The struct `BoundValue`, with the fields `func` and `head`; `BoundMut` and `BoundRef` have the same.
abbrev pub BoundValue : Type 0 → Type 0 → Type 0
BoundValue F Head = Tuple (F ∷ Head ∷ [])

-- `bind_value`, `bind_mut` and `bind_ref`
unfoldable pub bind_value : {F Head : Type 0} → F → Head → BoundValue F Head
bind_value func head = (func, (head, tt))

-- The derived implementation
abbrev pub bound_object : {F Head : Type 0} → Object F → Object Head → Object (BoundValue F Head)
bound_object {F} {Head} o o' = struct_object (F ∷ Head ∷ []) (o, (o', tt))

module _ {F Head Output : Type 0} {Tail : List (Type 0)} where
  -- `BoundValue` as `FnOnce`
  unfoldable pub value_once :
      FnOnceObject F (Head ∷ Tail) Output → FnOnceObject (BoundValue F Head) Tail Output
  unfolding arguments
  value_once f = record {
    call_object_once = λ (func, (head, _)) args. f.call_object_once func (arguments Tail head args);
  }

  -- `BoundValue` as `FnMut`: the head is copied.
  unfoldable pub value_mut :
      FnMutObject F (Head ∷ Tail) Output → FnMutObject (BoundValue F Head) Tail Output
  unfolding arguments
  value_mut f = record {
    call_object_mut = λ (func, (head, _)) args.
        let (output, func') = f.call_object_mut func (arguments Tail head args) in
        (output, (func', (head, tt)));
  }

  -- `BoundValue` and `BoundRef` as `Fn`
  unfoldable pub value_ref :
      FnObject F (Head ∷ Tail) Output → FnObject (BoundValue F Head) Tail Output
  unfolding arguments
  value_ref f = record {
    call_object = λ (func, (head, _)) args. f.call_object func (arguments Tail head args);
  }

  -- `BoundMut` as `FnMut`: the function has `&mut head`, so the head is left as the function leaves it.
  unfoldable pub mut_mut :
      FnMutObject F (Head ∷ Tail) (Output × Head) → FnMutObject (BoundValue F Head) Tail Output
  unfolding arguments
  mut_mut f = record {
    call_object_mut = λ (func, (head, _)) args.
        let ((output, head'), func') = f.call_object_mut func (arguments Tail head args) in
        (output, (func', (head', tt)));
  }
