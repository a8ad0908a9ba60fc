-- ===== src/Functions/Binding.antt =====
-- Calls of a function with several values bound, before and after it was sent.
use crossmist.Common.{◌≡◌, refl, ap, ◌∙◌, List, [], ◌∷◌, ◌++◌}
use crossmist.Serde.{Object, ok, new, from, serialize, deserialize}
use crossmist.Serde.Format.{Format}
use crossmist.Serde.Law.{Law}
use crossmist.Serde.RoundTrip.{exhausted, deserialize-serialize}
use crossmist.Builtins.Tuple.{Tuple, Objects, Formats, Laws, tuple_format}
use crossmist.Derive.{struct-Law}
use crossmist.Functions.Reverse.{arguments_lem}
use crossmist.Functions.{FnOnceObject, BoundValue, bind_value, bound_object, value_once}

-- A function with the values of these types bound, the first of them first.
abbrev pub Bound : Type 0 → List (Type 0) → Type 0
Bound F [] = F
Bound F (H ∷ Hs) = Bound (BoundValue F H) Hs

unfoldable pub bind_all : {F : Type 0} (Hs : List (Type 0)) → F → Tuple Hs → Bound F Hs
bind_all [] func heads = func
bind_all (H ∷ Hs) func (head, heads) = bind_all Hs (bind_value func head) heads

unfoldable pub once_all :
    {F Output : Type 0} (Hs : List (Type 0)) {Tail : List (Type 0)}
    → FnOnceObject F (Hs ++ Tail) Output
    → FnOnceObject (Bound F Hs) Tail Output
once_all [] f = f
once_all (H ∷ Hs) f = once_all Hs (value_once f)

-- The arguments of two tuples after each other.
abbrev pub both : (Hs Tail : List (Type 0)) → Tuple Hs → Tuple Tail → Tuple (Hs ++ Tail)
both [] Tail heads args = args
both (H ∷ Hs) Tail (head, heads) args = (head, both Hs Tail heads args)

bind_all-call :
    {F Output : Type 0} (Hs Tail : List (Type 0)) (f : FnOnceObject F (Hs ++ Tail) Output)
    (func : F) (heads : Tuple Hs) (args : Tuple Tail)
    → (once_all Hs f).call_object_once (bind_all Hs func heads) args
      ≡ f.call_object_once func (both Hs Tail heads args)
unfolding once_all bind_all value_once bind_value
bind_all-call [] Tail f func heads args = refl
bind_all-call (H ∷ Hs) Tail f func (head, heads) args =
    bind_all-call Hs Tail (value_once f) (bind_value func head) heads args
    ∙ ap (f.call_object_once func) (arguments_lem (Hs ++ Tail) head (both Hs Tail heads args))

abbrev pub bound_objects :
    {F : Type 0} (Hs : List (Type 0)) → Object F → Objects Hs → Object (Bound F Hs)
bound_objects [] o os = o
bound_objects (H ∷ Hs) o (o', os) = bound_objects Hs (bound_object o o') os

abbrev pub bound_format :
    {F : Type 0} (Hs : List (Type 0)) → Format F → Formats Hs → Format (Bound F Hs)
bound_format [] f fs = f
bound_format {F} (H ∷ Hs) f (f', fs) = bound_format Hs (tuple_format (F ∷ H ∷ []) (f, (f', tt))) fs

bound-Law :
    (Hs : List (Type 0)) {F : Type 0} {o o' : Object F} {f : Format F} (os os' : Objects Hs)
    (fs : Formats Hs)
    → Law o o' f
    → Laws Hs os os' fs
    → Law (bound_objects Hs o os) (bound_objects Hs o' os') (bound_format Hs f fs)
bound-Law [] os os' fs law laws = law
bound-Law (H ∷ Hs) {F} {o} {o'} {f} (p, os) (p', os') (g, fs) law (law', laws) =
    bound-Law Hs os os' fs
      (struct-Law (F ∷ H ∷ []) (o, (p, tt)) (o', (p', tt)) (f, (g, tt)) (law, (law', tt))) laws

bound-carry :
    {F : Type 0} (Hs : List (Type 0)) (f : Format F) (fs : Formats Hs) (func : F) (heads : Tuple Hs)
    → (bound_format Hs f fs).carry (bind_all Hs func heads)
      ≡ bind_all Hs (f.carry func) ((tuple_format Hs fs).carry heads)
unfolding bind_all bind_value
bound-carry [] f fs func heads = refl
bound-carry {F} (H ∷ Hs) f (g, fs) func (head, heads) =
    bound-carry Hs (tuple_format (F ∷ H ∷ []) (f, (g, tt))) fs (bind_value func head) heads

bound-Valid :
    {F : Type 0} (Hs : List (Type 0)) (f : Format F) (fs : Formats Hs) (func : F) (heads : Tuple Hs)
    → f.Valid func
    → (tuple_format Hs fs).Valid heads
    → (bound_format Hs f fs).Valid (bind_all Hs func heads)
unfolding bind_all bind_value
bound-Valid [] f fs func heads h hs = h
bound-Valid {F} (H ∷ Hs) f (g, fs) func (head, heads) h (h', hs) =
    bound-Valid Hs (tuple_format (F ∷ H ∷ []) (f, (g, tt))) fs (bind_value func head) heads
      (h, (h', tt)) hs

-- A function object with any number of values bound, one after the other, keeps its meaning on the way
-- to another process, if the function and the values are valid: what arrives there takes the remaining
-- arguments, and returns what the function returns on all arguments, the bound ones first and in the
-- order of binding, each as it arrives.
pub sent_bound-call :
    {F Output : Type 0} (Hs Tail : List (Type 0)) {o o' : Object F} {f : Format F}
    (os os' : Objects Hs) (fs : Formats Hs)
    → Law o o' f
    → Laws Hs os os' fs
    → (call : FnOnceObject F (Hs ++ Tail) Output) (func : F) (heads : Tuple Hs) (args : Tuple Tail)
    → f.Valid func
    → (tuple_format Hs fs).Valid heads
    → (bound : Bound F Hs) × (deserialize
          (bound_objects Hs o' os')
          (from (serialize (bound_objects Hs o os) (bind_all Hs func heads) new))
        ≡ ok (bound, exhausted (serialize (bound_objects Hs o os) (bind_all Hs func heads) new)))
      × ((once_all Hs call).call_object_once bound args
          ≡ call.call_object_once
              (f.carry func)
              (both Hs Tail ((tuple_format Hs fs).carry heads) args))
sent_bound-call Hs Tail {f = f} os os' fs law laws call func heads args h hs = (
  (bound_format Hs f fs).carry (bind_all Hs func heads),
  deserialize-serialize (bound-Law Hs os os' fs law laws) (bind_all Hs func heads)
      (bound-Valid Hs f fs func heads h hs),
  ap (λ bound. (once_all Hs call).call_object_once bound args) (bound-carry Hs f fs func heads)
      ∙ bind_all-call Hs Tail call (f.carry func) ((tuple_format Hs fs).carry heads) args,
)
