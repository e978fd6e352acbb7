-- ===== src/Pool/Moves.antt =====
-- A move of one thread among the others.
use easyforetell.Prelude.{
  ℕ, ◌+◌, ◌-◌, ◌*◌, ◌≤◌, ◌≡◌, refl, sym, ap, ◌∙◌, subst, false, List, [], ◌∷◌, ◌++◌, append_assoc,
  Option, some, arith,
}
use easyforetell.Memory.{Bytes}
use easyforetell.Memory.Laws.{Holds}
use easyforetell.Socket.{Shared}
use easyforetell.Curl.{MemoryStruct}
use easyforetell.Memcached.{LibMemcached}
use easyforetell.Memcached.Store.{Store}
use easyforetell.Jobs.{Globals}
use easyforetell.Pool.{Place, weight, total, Pool, Move, goes, advance}
use easyforetell.Pool.Pending.{is_for, is_for-append, append-is_for}
use easyforetell.Pool.Facts.{Own, Waiting, Stored, Fine, IsFine, fine}
use easyforetell.Pool.Invariant.{advance-IsFine}

module _ (lib : LibMemcached)
    (perform : Bytes → MemoryStruct → Option (MemoryStruct × Option Bytes)) (globals : Globals)
    {prefix : Bytes} (hp : Holds globals.key_prefix prefix) (web : Bytes → List Bytes)
    (store : Store lib) (final : Bytes → Option Bytes) where
  -- The urls under way in all threads.
  pub data Under : List (Place lib) → List Bytes → Type 0 where
    no_thread : Under [] []
    thread :
        {place : Place lib} {own : List Bytes} {places : List (Place lib)} {us : List Bytes}
        → Own lib perform globals hp web store final place own
        → Under places us
        → Under (place ∷ places) (own ++ us)

  -- One thread among the others.
  record Split (before after : List (Place lib)) (place : Place lib) (us : List Bytes)
      : Type 0 where
    front : List Bytes
    own : List Bytes
    back : List Bytes
    under_front : Under before front
    one : Own lib perform globals hp web store final place own
    under_back : Under after back
    same : us ≡ front ++ (own ++ back)

  split :
      (before : List (Place lib)) {after : List (Place lib)} {place : Place lib} {us : List Bytes}
      → Under (before ++ place ∷ after) us
      → Split before after place us
  split [] (thread {us = us} one under) = record {
    front = [];
    own = _;
    back = us;
    under_front = no_thread;
    one = one;
    under_back = under;
    same = refl;
  }
  split (p ∷ before) (thread {own = own} one under) =
      let s = split before under in
      record {
        front = own ++ s.front;
        own = s.own;
        back = s.back;
        under_front = thread one s.under_front;
        one = s.one;
        under_back = s.under_back;
        same = ap (λ k. own ++ k) s.same ∙ sym (append_assoc own s.front (s.own ++ s.back));
      }

  join :
      {before after : List (Place lib)} {place : Place lib} {front own back : List Bytes}
      → Under before front
      → Own lib perform globals hp web store final place own
      → Under after back
      → Under (before ++ place ∷ after) (front ++ (own ++ back))
  join no_thread one under = thread one under
  join {own = own} {back = back} (thread {own = own'} {us = us} first more) one under =
      subst (Under _) (sym (append_assoc own' us (own ++ back)))
        (thread first (join more one under))

  -- What holds of the pool in every state.
  pub record Sound (pool : Pool lib) : Type 0 where
    pub us : List Bytes
    pub rest : List Bytes
    pub under : Under pool.places us
    pub waiting : Waiting lib perform globals hp web store final pool.shared rest
    pub stored : Stored lib perform globals hp web store final pool.servers us [] rest

  pub total-append :
      (before after : List (Place lib)) (place : Place lib)
      → total lib (before ++ place ∷ after)
        ≡ total lib before + (weight lib place + total lib after)
  total-append [] after place = omega arith
  total-append (p ∷ before) after place = omega (arith, total-append before after place)

  IsFine-some :
      {others : List Bytes} {cost : ℕ} {o : Option (Shared × lib.Memc × Place lib)}
      → IsFine lib perform globals hp web store final others cost o
      → (shared : Shared) × (servers : lib.Memc) × (place : Place lib) × (o
          ≡ some (shared, servers, place))
        × Fine lib perform globals hp web store final others cost shared servers place
  IsFine-some (fine f) = (_, _, _, refl, f)

  -- A move of a thread.
  pub record Moved (s : Pool lib) (before after : List (Place lib)) (place : Place lib)
      : Type 0 where
    pub shared : Shared
    pub servers : lib.Memc
    pub place' : Place lib
    pub runs : advance lib perform globals s.shared s.servers place ≡ some (shared, servers, place')
    pub sound :
        Sound (record { shared = shared; servers = servers; places = before ++ place' ∷ after })
    pub less :
        weight lib place' + 3 * shared.url_count ≤ weight lib place + 3 * s.shared.url_count - 1

  pub moved :
      (s : Pool lib) (before after : List (Place lib)) (place : Place lib)
      → Sound s
      → s.places ≡ before ++ place ∷ after
      → Moved s before after place
  unfolding is_for
  moved s before after place v e =
      let sp = split before (subst (λ k. Under k v.us) e v.under) in
      let (shared, servers, place', runs, f) = IsFine-some (
        advance-IsFine lib perform globals hp web store final (sp.front ++ sp.back) s.shared
          s.servers place sp.own v.rest sp.one v.waiting
          λ asked others own rest.
            let (a, b) = is_for-append prefix asked sp.front sp.back others in
            v.stored asked
              (subst (λ k. is_for prefix asked k ≡ false) (sym sp.same)
                (append-is_for prefix asked sp.front (sp.own ++ sp.back) a
                  (append-is_for prefix asked sp.own sp.back own b)))
              refl rest) in
      record {
        shared = shared;
        servers = servers;
        place' = place';
        runs = runs;
        sound = record {
          us = sp.front ++ (f.own ++ sp.back);
          rest = f.rest;
          under = join sp.under_front f.one sp.under_back;
          waiting = f.waiting;
          stored = λ asked others own rest.
              let (a, more) = is_for-append prefix asked sp.front (f.own ++ sp.back) others in
              let (mine, b) = is_for-append prefix asked f.own sp.back more in
              f.stored asked (append-is_for prefix asked sp.front sp.back a b) mine rest;
        };
        less = omega (arith, f.less, f.waiting.counted, v.waiting.counted);
      }

  pub Move-Sound : {s t : Pool lib} → Move lib perform globals s t → Sound s → Sound t
  Move-Sound {s} (goes before after place place' shared servers e runs) v =
      let m = moved s before after place v e in
      let again = m.runs in
      let same : (m.shared, m.servers, m.place') ≡ (shared, servers, place') = cc in
      subst Sound
        (ap
          (λ (k : Shared × lib.Memc × Place lib). record {
            shared = k.0;
            servers = k.1;
            places = before ++ k.2 ∷ after;
          })
          same)
        m.sound
