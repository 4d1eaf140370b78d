-- ===== src/Agent/Sent.antt =====
-- A message that a running agent sends to one of its peers: FTBM_Send does not follow a null pointer
-- then, and the other peers stay, whatever comes of the message.
use ftb.Prelude.{
  ◌≡◌, refl, ap, ◌∙◌, Bool, true, false, some, arith, if◌then◌else◌, inl, inr, Bool-cases,
}
use ftb.Defs.{Code, is_success, FtbId, Msg}
use ftb.Match.{is_equal_location_id}
use ftb.Map
use ftb.Map.Laws
use ftb.Map.Laws.{Distinct}
use ftb.Manager.State.{Comp, Manager, Env, Run, ok, comp_id, find_comp}
use ftb.Manager.Propagation.{send_msg, clean_component}
use ftb.Manager.Frame.{clean_component-Rerouted, send_masks-Called}
use ftb.Manager.Lifecycle.{connect_parent, readopt, rejoin, reconnect, parent_comp}
use ftb.Manager.Clients.{forget, hang_up, is_manager, drop_dead, after_loss, send}
use ftb.Manager.Routes.{same_id, id_eq}
use ftb.Manager.Tables.{find_comp_sound}
use ftb.Manager.Coherence.{IsSound, IsSound-same}
use ftb.Agent.Running.{IsUp, IsUp-if, IsUp-same, reconnect-IsUp, forget-IsUp}

abbrev pub is_peer : FtbId → Manager → Bool
is_peer id s = Map.has comp_id same_id id s.peers

-- Every peer of `s` but `id` is a peer of `t`.
abbrev pub KeepsOthers : FtbId → Manager → Manager → Type 0
KeepsOthers id s t = (j : FtbId) → same_id id j ≡ false → is_peer j s ≡ true → is_peer j t ≡ true

module _ (env : Env) where
  readopt_keeps :
      (c : Comp) (s : Manager) (j : FtbId) → is_peer j s ≡ true → is_peer j (readopt env c s) ≡ true
  unfolding readopt
  readopt_keeps c s j h = elim (Bool-cases (Map.has comp_id same_id c.id s.peers)) [
    | inl old ↦ rw (Laws.insert_of_has comp_id same_id c s.peers old, readopt) h
    | inr new ↦
        let kept = Laws.insert_of_not_has comp_id same_id c s.peers new in
        let t : Manager = record s { peers = (Map.insert comp_id same_id c s.peers).1 } in
        let r = send_masks-Called env c.id s.catch_event_map t in
        rw (kept, readopt)
          (ap (λ ps. Map.has comp_id same_id j ps) r.peers
            ∙ ground (arith, Laws.has-insert comp_id same_id id_eq j c s.peers))
  ]

  reconnect_keeps :
      (s : Manager) (j : FtbId) → is_peer j s ≡ true → is_peer j (reconnect env s) ≡ true
  unfolding reconnect rejoin connect_parent
  reconnect_keeps s j h =
      let t = connect_parent env s in
      let r = readopt_keeps (parent_comp t.parent) t j h in ground arith

  forget_peers :
      (b : Bool) (c : Comp) (s : Manager)
      → (forget c
          (if b then hang_up c (clean_component env c s) else clean_component env c s)).peers
        ≡ Map.remove_node comp_id same_id c.id s.peers
  forget_peers true c s =
      ap (Map.remove_node comp_id same_id c.id) (clean_component-Rerouted env c s).peers
  forget_peers false c s =
      ap (Map.remove_node comp_id same_id c.id) (clean_component-Rerouted env c s).peers

  -- The peer that was found goes, and the others stay.
  forget_keeps :
      (b : Bool) (c : Comp) (id : FtbId) (s : Manager)
      → IsSound s
      → find_comp id s.peers ≡ some c
      → KeepsOthers id s
          (forget c (if b then hang_up c (clean_component env c s) else clean_component env c s))
  forget_keeps b c id s h found j other there =
      ap (λ ps. Map.has comp_id same_id j ps) (forget_peers b c s)
      ∙ ground (
        arith,
        Laws.find_key-remove_node comp_id same_id id_eq j c.id s.peers h.table.ids,
        id_eq.is_cong c.id id j (find_comp_sound s.peers h.table id c found),
      )

  peer_if :
      (b : Bool) (j : FtbId) (s : Manager)
      → is_peer j s ≡ true
      → is_peer j (if b then reconnect env s else s) ≡ true
  peer_if true j s h = reconnect_keeps s j h
  peer_if false j s h = h

  -- A running agent that has lost a message to a peer drops the peer, and no other.
  pub record Dropped (id : FtbId) (s : Manager) (r : Run Manager) : Type 0 where
    pub left : Manager
    pub runs : r ≡ ok left
    pub up : IsUp left
    pub keeps : KeepsOthers id s left

  drop_dead-Dropped :
      (id : FtbId) (s : Manager) (c : Comp)
      → IsSound s
      → IsUp s
      → find_comp id s.peers ≡ some c
      → Dropped id s (drop_dead env id s)
  unfolding drop_dead
  drop_dead-Dropped id s c h k found = record {
    left =
        forget c (
          if is_manager c.id then hang_up c (clean_component env c s) else clean_component env c s);
    runs = ground arith;
    up = forget-IsUp env (is_manager c.id) c s k;
    keeps = forget_keeps (is_manager c.id) c id s h found;
  }

  -- A message to a peer is sent without a crash, and whatever comes of it, the other peers stay.
  pub record Sent (m : Msg) (s : Manager) : Type 0 where
    pub result : Code × Manager
    pub runs : send env m s ≡ ok result
    pub up : IsUp result.1
    pub keeps : KeepsOthers m.dst s result.1

  pub send-Sent :
      (m : Msg) (s : Manager) (c : Comp)
      → IsSound s
      → IsUp s
      → find_comp m.dst s.peers ≡ some c
      → Sent m s
  unfolding send send_msg after_loss
  send-Sent m s c h k found =
      let q = send_msg env m s in
      elim (Bool-cases (is_success q.0)) [
        | inl good ↦ record {
          result = q;
          runs = ground (arith, k.up);
          up = record { up = k.up; agent = k.agent };
          keeps = λ j other there. there;
        }
        | inr lost ↦
            let d =
              drop_dead-Dropped m.dst q.1 c (IsSound-same s q.1 refl refl h)
                (IsUp-same s q.1 refl refl k) found in
            record {
              result = (
                q.0,
                if is_equal_location_id d.left.parent m.dst.location_id
                    then reconnect env d.left
                    else d.left,
              );
              runs = ground (arith, k.up, k.agent, d.runs);
              up =
                  IsUp-if (is_equal_location_id d.left.parent m.dst.location_id) _ _
                    (reconnect-IsUp env d.left d.up) d.up;
              keeps = λ j other there.
                  peer_if (is_equal_location_id d.left.parent m.dst.location_id) j d.left
                    (d.keeps j other there);
            }
      ]
