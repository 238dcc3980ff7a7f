-- ===== src/Singleton.antt =====
-- base/Singleton.h, class Singleton: one object, made when it is first asked for. The state is
-- `instance_`, with `none` for the null pointer.
use gearkit.Base.{◌≡◌, refl, Option, none, some, Bool, true, false}

module _ {ℓ} {T : Type ℓ} where
  -- `instance`: the answer and the state; `object` is what `new T()` and `baseInit` make, where they
  -- are called.
  unfoldable instance_of : T → Option T → T × Option T
  instance_of object (some t) = (t, some t)
  instance_of object none = (object, some object)

  -- `destroyInstance`: the object that is deleted, if one is, and the state.
  unfoldable destroy_instance : Option T → Option T × Option T
  destroy_instance (some t) = (some t, none)
  destroy_instance none = (none, none)

  -- `!instance_`
  unfoldable exists : Option T → Bool
  exists none = true
  exists (some t) = false

  -- A second call of `instance` answers with the object of the first, which `destroyInstance` then
  -- deletes; while there is an object `exists` answers `false`, and afterwards `true`.
  second_call :
      (object other : T) (s : Option T)
      → let r = instance_of object s in
        (instance_of other r.1 ≡ r)
        × (destroy_instance r.1 ≡ (some r.0, none))
        × (exists r.1 ≡ false)
        × (exists (destroy_instance r.1).1 ≡ true)
  unfolding instance_of destroy_instance exists
  second_call object other (some t) = (refl, refl, refl, refl)
  second_call object other none = (refl, refl, refl, refl)
